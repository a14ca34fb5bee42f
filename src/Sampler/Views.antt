-- ===== src/Sampler/Views.antt =====
-- What the operations of getting_there/wifi_sampler.c do to the scans: which is open, which wait to be
-- reported, and which have been.
use inf2004_aai19_embedded_s.Common.{
  ℕ, ◌≡◌, refl, ap, ◌∙◌, Bool, true, false, List, [], ◌∷◌, if◌then◌else◌,
}
use inf2004_aai19_embedded_s.Sampler.{
  WifiRecord, Call, Radio, Sampler, M, pure, gets, modify, ask, ◌>>=◌,
}

-- The scans by their numbers, newest first.
pub record View : Type 0 where
  pub open_now : Bool
  pub failed : Bool
  pub last : ℕ
  pub current : ℕ
  pub waiting : List ℕ
  pub told : List ℕ

abbrev pub ids : List WifiRecord → List ℕ
ids [] = []
ids (r ∷ rs) = r.scan_id ∷ ids rs

abbrev pub view : {W : Type 0} → Sampler W → View
view s = record {
  open_now = s.scan_open;
  failed = s.sampler_failed;
  last = s.scan_id;
  current = s.pending.scan_id;
  waiting = ids s.records;
  told = ids s.reported;
}

-- `m` does nothing to the scans.
pub record Frames {W A : Type 0} (m : M W A) : Type 0 where
  pub keeps : (s : Sampler W) → view (m s).1 ≡ view s

module _ {W A : Type 0} where
  pub Frames-pure : (a : A) → Frames {W = W} (pure a)
  Frames-pure a = record { keeps = λ s. refl }

  pub Frames-gets : (f : Sampler W → A) → Frames (gets f)
  Frames-gets f = record { keeps = λ s. refl }

  pub Frames-if : (b : Bool) (m n : M W A) → Frames m → Frames n → Frames (if b then m else n)
  Frames-if true m n km kn = km
  Frames-if false m n km kn = kn

module _ {W A B : Type 0} where
  pub Frames-bind :
      (m : M W A) (f : A → M W B) → Frames m → ((a : A) → Frames (f a)) → Frames (m >>= f)
  unfolding ◌>>=◌
  Frames-bind m f km kf = record { keeps = λ s. (kf (m s).0).keeps (m s).1 ∙ km.keeps s }

module _ {W : Type 0} where
  pub Frames-modify :
      (f : Sampler W → Sampler W) → ((s : Sampler W) → view (f s) ≡ view s) → Frames (modify f)
  Frames-modify f h = record { keeps = h }

  pub Frames-ask : (radio : Radio W) (c : Call) → Frames (ask radio c)
  unfolding ask
  Frames-ask radio c = record { keeps = λ s. refl }

pub ruleset frame_rules =
    (Frames-pure, Frames-gets, Frames-if, Frames-bind, Frames-modify, Frames-ask)

-- From scans `v`, an action's result and the scans after it.
pub record Ensures {W A : Type 0} (v : View) (m : M W A) (Q : A → View → Type 0) : Type 0 where
  pub at : (s : Sampler W) → view s ≡ v → Q (m s).0 (view (m s).1)

module _ {W A : Type 0} {v : View} {Q : A → View → Type 0} where
  pub Ensures-pure : (a : A) → Q a v → Ensures {W = W} v (pure a) Q
  Ensures-pure a q = record { at = λ s e. rw e q }

  pub Ensures-if :
      (b : Bool) {m n : M W A}
      → (b ≡ true → Ensures v m Q)
      → (b ≡ false → Ensures v n Q)
      → Ensures v (if b then m else n) Q
  Ensures-if true km kn = km refl
  Ensures-if false km kn = kn refl

module _ {W A : Type 0} {v : View} {m : M W A} where
  pub Ensures-weaken :
      {Q R : A → View → Type 0}
      → Ensures v m Q
      → ((a : A) (w : View) → Q a w → R a w)
      → Ensures v m R
  Ensures-weaken k l = record { at = λ s e. l (m s).0 (view (m s).1) (k.at s e) }

  pub Frames-Ensures :
      {T : A → Type 0} → Frames m → ((a : A) → T a) → Ensures v m (λ a w. (w ≡ v) × T a)
  Frames-Ensures k t = record { at = λ s e. (k.keeps s ∙ e, t (m s).0) }

module _ {W A B : Type 0} {v : View} {R : B → View → Type 0} where
  pub Ensures-bind :
      {Q : A → View → Type 0} {m : M W A} {f : A → M W B}
      → Ensures v m Q
      → ((a : A) (w : View) → Q a w → Ensures w (f a) R)
      → Ensures v (m >>= f) R
  unfolding ◌>>=◌
  Ensures-bind {m = m} k l = record {
    at = λ s e. (l (m s).0 (view (m s).1) (k.at s e)).at (m s).1 refl;
  }

  -- After a part that does nothing to the scans.
  pub Frames-then :
      {m : M W A} {f : A → M W B} → Frames m → ((a : A) → Ensures v (f a) R) → Ensures v (m >>= f) R
  unfolding ◌>>=◌
  Frames-then {m = m} k l = record { at = λ s e. (l (m s).0).at (m s).1 (k.keeps s ∙ e) }

  -- After a part that does nothing to the scans and ensures `T`.
  pub Keeps-then :
      {T : A → Type 0} {m : M W A} {f : A → M W B}
      → Ensures v m (λ a w. (w ≡ v) × T a)
      → ((a : A) → T a → Ensures v (f a) R)
      → Ensures v (m >>= f) R
  unfolding ◌>>=◌
  Keeps-then {m = m} k l = record { at = λ s e. (l (m s).0 (k.at s e).1).at (m s).1 (k.at s e).0 }

  -- A look at the state.
  pub Ensures-gets :
      (g : Sampler W → A) (f : A → M W B)
      → ((s : Sampler W) → view s ≡ v → Ensures v (f (g s)) R)
      → Ensures v (gets g >>= f) R
  unfolding ◌>>=◌
  Ensures-gets g f l = record { at = λ s e. (l s e).at s e }

module _ {W B : Type 0} {v : View} {R : B → View → Type 0} where
  -- A change of the state that changes the scans by `h`.
  pub Ensures-modify :
      (g : Sampler W → Sampler W) (f : Unit {0} → M W B) (h : View → View)
      → ((s : Sampler W) → view (g s) ≡ h (view s))
      → Ensures (h v) (f tt) R
      → Ensures v (modify g >>= f) R
  unfolding ◌>>=◌
  Ensures-modify g f h same l = record { at = λ s e. l.at (g s) (same s ∙ ap h e) }
