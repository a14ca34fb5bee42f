-- ===== src/Run/Triple.antt =====
-- What holds after an action of getting_there.c, whether it goes on or ends: rules for each way to
-- build an action.
use inf2004_aai19_embedded_s.Common.{◌≡◌, refl, Bool, true, false, if◌then◌else◌}
use inf2004_aai19_embedded_s.Run.{Run, End, Out, M, pure, stop, require, continue, ◌>>=◌, ◌>>◌}

-- An action's outcome: `Q` where it goes on, `E` where it ends.
abbrev pub Post : {W A : Type 0} → (A → Run W → Type 0) → (End → Run W → Type 0) → Out W A → Type 0
Post Q E (Out.ok a s) = Q a s
Post Q E (Out.ended e s) = E e s

pub record Triple {W A : Type 0} (P : Run W → Type 0) (m : M W A) (Q : A → Run W → Type 0)
    (E : End → Run W → Type 0) : Type 0 where
  pub at : (s : Run W) → P s → Post Q E (m s)

module _ {W A : Type 0} where
  pub Post-mono :
      (Q R : A → Run W → Type 0) (E : End → Run W → Type 0) (o : Out W A)
      → ((a : A) (s : Run W) → Q a s → R a s)
      → Post Q E o
      → Post R E o
  Post-mono Q R E (Out.ok a s) f h = f a s h
  Post-mono Q R E (Out.ended e s) f h = h

module _ {W A : Type 0} {E : End → Run W → Type 0} where
  pub Triple-mono :
      {P P' : Run W → Type 0} {Q R : A → Run W → Type 0} {m : M W A}
      → Triple P m Q E
      → ((s : Run W) → P' s → P s)
      → ((a : A) (s : Run W) → Q a s → R a s)
      → Triple P' m R E
  Triple-mono {Q = Q} {R = R} {m = m} k before after = record {
    at = λ s h. Post-mono Q R E (m s) after (k.at s (before s h));
  }

  pub Triple-pure :
      {P : Run W → Type 0} {Q : A → Run W → Type 0} (a : A)
      → ((s : Run W) → P s → Q a s)
      → Triple P (pure a) Q E
  unfolding pure
  Triple-pure a f = record { at = f }

  pub Triple-stop :
      {P : Run W → Type 0} {Q : A → Run W → Type 0} (e : End)
      → ((s : Run W) → P s → E e s)
      → Triple P (stop e) Q E
  unfolding stop
  Triple-stop e f = record { at = f }

  pub Triple-if :
      {P : Run W → Type 0} {Q : A → Run W → Type 0} (b : Bool) {m n : M W A}
      → (b ≡ true → Triple P m Q E)
      → (b ≡ false → Triple P n Q E)
      → Triple P (if b then m else n) Q E
  Triple-if true km kn = km refl
  Triple-if false km kn = kn refl

module _ {W A B : Type 0} where
  Post-bind :
      (Q : A → Run W → Type 0) (R : B → Run W → Type 0) (E : End → Run W → Type 0) (o : Out W A)
      (f : A → M W B)
      → ((a : A) → Triple (Q a) (f a) R E)
      → Post Q E o
      → Post R E (continue o f)
  Post-bind Q R E (Out.ok a s) f k h = (k a).at s h
  Post-bind Q R E (Out.ended e s) f k h = h

  pub Triple-bind :
      {P : Run W → Type 0} {Q : A → Run W → Type 0} {R : B → Run W → Type 0}
      {E : End → Run W → Type 0} {m : M W A} {f : A → M W B}
      → Triple P m Q E
      → ((a : A) → Triple (Q a) (f a) R E)
      → Triple P (m >>= f) R E
  unfolding ◌>>=◌
  Triple-bind {Q = Q} {R = R} {E = E} {m = m} {f = f} k l = record {
    at = λ s h. Post-bind Q R E (m s) f l (k.at s h);
  }

module _ {W B : Type 0} {E : End → Run W → Type 0} where
  -- `if (!b) return PAYLOAD_FATAL;` and the rest.
  pub Triple-require :
      {P : Run W → Type 0} {R : B → Run W → Type 0} (b : Bool) {m : M W B}
      → ((s : Run W) → P s → E End.fatal s)
      → (b ≡ true → Triple P m R E)
      → Triple P (require b >> m) R E
  unfolding ◌>>=◌ pure stop
  Triple-require true f k = record { at = (k refl).at }
  Triple-require false f k = record { at = f }

module _ {W A : Type 0} {E : End → Run W → Type 0} where
  -- A fact that the state before gives.
  pub Triple-given :
      {P : Run W → Type 0} {Q : A → Run W → Type 0} {F : Type 0} {m : M W A}
      → ((s : Run W) → P s → F)
      → (F → Triple P m Q E)
      → Triple P m Q E
  Triple-given f k = record { at = λ s h. (k (f s h)).at s h }
