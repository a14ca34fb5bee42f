-- ===== src/Client/Deadline.antt =====
-- How long the loop of `run_attempt` goes on, and since when an abort has been requested.
use inf2004_aai19_embedded_s.Common.{
  ℕ, ◌<◌, ◌≡◌, ◌⊎◌, Bool, true, false, ◌&&◌, not, List, [], ◌∷◌, if◌then◌else◌,
}
use inf2004_aai19_embedded_s.Client.{Result, Flag, Client, flag}
use inf2004_aai19_embedded_s.Client.Attempt.{
  Attempt, Outcome, Readings, Turn, cleaning_up, round, elapsed, phase_timeout, cleanup_timeout_ms,
  attempt_timeout_ms, called_back,
}

-- The value of an outcome at which the loop goes on, or a value for one that returns.
abbrev pub if_looping : {A : Type 0} → A → (Attempt → A) → Outcome → A
if_looping x f (Outcome.returned r c) = x
if_looping x f (Outcome.looping a) = f a

-- Whether an abort is requested in `b` and not in `a`.
abbrev pub newly_requested : Attempt → Attempt → Bool
newly_requested a b = not (flag Flag.abort_requested a.client) && flag Flag.abort_requested b.client

-- The time of the latest request after a round from `a` to `b`.
abbrev pub since_after : Readings → Attempt → ℕ → Attempt → ℕ
since_after t a since b = if newly_requested a b then t.abort_now else since

abbrev pub last_turn : Turn → List Turn → Turn
last_turn t [] = t
last_turn t (u ∷ ts) = last_turn u ts

-- The clock's reading at the latest request of an abort by a round of the loop; `since` if there is
-- none. It looks at the flag only, before and after each round.
module _ (service_data : ℕ) where
  abbrev pub last_request : List Turn → ℕ → Attempt → ℕ
  last_request [] since a = since
  last_request (t ∷ ts) since a =
      let a1 = called_back service_data t a in
      if_looping since (λ b. last_request ts (since_after t.readings a1 since b) b)
        (round t.readings a1)

-- An attempt that goes on after a round with these readings, `since` being the time of the request.
record InTime (t : Readings) (start since : ℕ) (b : Attempt) : Type 0 where
  pub limits :
      ((flag Flag.abort_requested b.client ≡ false)
        × (t.stop_requested ≡ false)
        × (elapsed t.attempt_now start < attempt_timeout_ms)
        × (elapsed t.phase_now b.client.phase_started_ms < phase_timeout b.client.state))
      ⊎ ((flag Flag.abort_requested b.client ≡ true)
          × (elapsed t.cleanup_now since < cleanup_timeout_ms))
  pub cleanup :
      (cleaning_up b.client ≡ false)
      ⊎ (elapsed t.phase_now b.client.phase_started_ms < cleanup_timeout_ms)

record GoesOn (t : Readings) (a b : Attempt) : Type 0 where
  in_time : InTime t a.start b.abort_started b
  since : b.abort_started ≡ since_after t a a.abort_started b
  same_start : b.start ≡ a.start

data Ends (t : Readings) (a : Attempt) : Outcome → Type 0 where
  returned : {r : Result} {c : Client} → Ends t a (Outcome.returned r c)
  looping : {b : Attempt} → GoesOn t a b → Ends t a (Outcome.looping b)

-- What an attempt begins with.
data Begins (start : ℕ) : Outcome → Type 0 where
  returned : {r : Result} {c : Client} → Begins start (Outcome.returned r c)
  looping : {a : Attempt} → a.abort_started ≡ 0 → a.start ≡ start → Begins start (Outcome.looping a)
