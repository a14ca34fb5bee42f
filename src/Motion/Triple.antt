-- ===== src/Motion/Triple.antt =====
-- The pins and the drive of getting_there/motion.c over an action: rules for what it keeps and ensures.
use inf2004_aai19_embedded_s.Common.{
  ℕ, ◌≡◌, refl, Bool, true, false, Option, none, some, if◌then◌else◌,
}
use inf2004_aai19_embedded_s.Motion.{
  Call, Board, Motion, M, pure, unending, gets, modify, ask, ◌>>=◌, on_some, continue,
}

pub record View : Type 0 where
  pub m1_a : ℕ
  pub m1_b : ℕ
  pub m2_a : ℕ
  pub m2_b : ℕ
  pub powered : Bool
  pub active : Bool

abbrev pub view : {W F : Type 0} → Motion W F → View
view s = record {
  m1_a = s.m1_a;
  m1_b = s.m1_b;
  m2_a = s.m2_a;
  m2_b = s.m2_b;
  powered = s.motors_powered;
  active = s.drive_active;
}

abbrev pub Ended : {A : Type 0} → (A → View → Type 0) → Option A → View → Type 0
Ended Q none w = Unit
Ended Q (some a) w = Q a w

-- From `P`, an action that ends gives `Q`.
pub record Triple {W F A : Type 0} (P : View → Type 0) (m : M W F A) (Q : A → View → Type 0)
    : Type 0 where
  pub at : (s : Motion W F) → P (view s) → Ended Q (m s).0 (view (m s).1)

-- `P` is kept by an action that ends.
abbrev pub Keeps : {W F A : Type 0} → (View → Type 0) → M W F A → Type 0
Keeps P m = Triple P m (λ a. P)

module _ {W F A : Type 0} {P : View → Type 0} where
  pub Triple-pure :
      {Q : A → View → Type 0} (a : A)
      → ((w : View) → P w → Q a w)
      → Triple {W = W} {F = F} P (pure a) Q
  Triple-pure a f = record { at = λ s p. f (view s) p }

  pub Keeps-pure : (a : A) → Keeps {W = W} {F = F} P (pure a)
  Keeps-pure a = record { at = λ s p. p }

  pub Triple-unending : {Q : A → View → Type 0} → Triple {W = W} {F = F} P unending Q
  Triple-unending = record { at = λ s p. tt }

  pub Keeps-unending : Keeps {W = W} {F = F} {A = A} P unending
  Keeps-unending = record { at = λ s p. tt }

  pub Keeps-gets : (f : Motion W F → A) → Keeps P (gets f)
  Keeps-gets f = record { at = λ s p. p }

  pub Triple-if :
      {Q : A → View → Type 0} (b : Bool) {m n : M W F A}
      → (b ≡ true → Triple P m Q)
      → (b ≡ false → Triple P n Q)
      → Triple P (if b then m else n) Q
  Triple-if true km kn = km refl
  Triple-if false km kn = kn refl

  pub Triple-branch :
      {Q : A → View → Type 0} (b : Bool) (m n : M W F A)
      → Triple P m Q
      → Triple P n Q
      → Triple P (if b then m else n) Q
  Triple-branch true m n km kn = km
  Triple-branch false m n km kn = kn

  pub Keeps-if : (b : Bool) (m n : M W F A) → Keeps P m → Keeps P n → Keeps P (if b then m else n)
  Keeps-if true m n km kn = km
  Keeps-if false m n km kn = kn

  pub Triple-before :
      {R : View → Type 0} {Q : A → View → Type 0} {m : M W F A}
      → ((w : View) → P w → R w)
      → Triple R m Q
      → Triple P m Q
  Triple-before f k = record { at = λ s p. k.at s (f (view s) p) }

module _ {W F A : Type 0} {P : View → Type 0} {m : M W F A} where
  pub Triple-weaken :
      {Q R : A → View → Type 0} → ((a : A) (w : View) → Q a w → R a w) → Triple P m Q → Triple P m R
  Triple-weaken {Q} {R} f k = record { at = λ s p. ended (m s).0 (view (m s).1) (k.at s p) }
    where
      ended : (o : Option A) (w : View) → Ended Q o w → Ended R o w
      ended none w q = tt
      ended (some a) w q = f a w q

module _ {W F A B : Type 0} {P : View → Type 0} where
  pub Triple-bind :
      {R : A → View → Type 0} {Q : B → View → Type 0} {m : M W F A} {f : A → M W F B}
      → Triple P m R
      → ((a : A) → Triple (R a) (f a) Q)
      → Triple P (m >>= f) Q
  unfolding ◌>>=◌
  Triple-bind {R} {Q} {m} {f} k l = record { at = λ s p. goes_on (m s) (k.at s p) }
    where
      goes_on :
          (r : Option A × Motion W F)
          → Ended R r.0 (view r.1)
          → Ended Q (continue r f).0 (view (continue r f).1)
      goes_on (some a, s) q = (l a).at s q
      goes_on (none, s) q = tt

  pub Keeps-bind :
      (m : M W F A) (f : A → M W F B) → Keeps P m → ((a : A) → Keeps P (f a)) → Keeps P (m >>= f)
  Keeps-bind m f = Triple-bind

  -- A look at the state, which is the one of the precondition.
  pub Triple-look :
      {Q : B → View → Type 0} (g : Motion W F → A) (f : A → M W F B)
      → ((s : Motion W F) → Triple (λ w. P w × (w ≡ view s)) (f (g s)) Q)
      → Triple P (gets g >>= f) Q
  unfolding ◌>>=◌
  Triple-look g f l = record { at = λ s p. (l s).at s (p, refl) }

  pub Keeps-on_some :
      (o : Option A) (n : M W F B) (f : A → M W F B)
      → Keeps P n
      → ((a : A) → Keeps P (f a))
      → Keeps P (on_some o n f)
  Keeps-on_some none n f kn kf = kn
  Keeps-on_some (some a) n f kn kf = kf a

-- No result comes with `N`, a result with `P`.
abbrev pub Either : {A : Type 0} → (View → Type 0) → (View → Type 0) → Option A → View → Type 0
Either N P none = N
Either N P (some a) = P

module _ {W F A B : Type 0} {N P : View → Type 0} where
  pub Triple-on_some :
      {Q : B → View → Type 0} (o : Option A) {n : M W F B} {f : A → M W F B}
      → Triple N n Q
      → ((a : A) → Triple P (f a) Q)
      → Triple (Either N P o) (on_some o n f) Q
  Triple-on_some none kn kf = kn
  Triple-on_some (some a) kn kf = kf a

module _ {W F : Type 0} {P : View → Type 0} where
  pub Keeps-modify :
      (f : Motion W F → Motion W F)
      → ((s : Motion W F) → P (view s) → P (view (f s)))
      → Keeps P (modify f)
  Keeps-modify f h = record { at = h }

  pub Keeps-ask : (board : Board W F) (c : Call F) → Keeps P (ask board c)
  unfolding ask
  Keeps-ask board c = record { at = λ s p. p }

pub ruleset keep_rules = (
  Keeps-pure, Keeps-unending, Keeps-gets, Keeps-if, Keeps-bind, Keeps-on_some, Keeps-modify,
  Keeps-ask,
)
