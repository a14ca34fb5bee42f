-- ===== src/Sampler.antt =====
-- getting_there/wifi_sampler.c: the scans for the access point's signal and the filter over them. The
-- static variables are the fields of `Sampler`; what is asked of the SDK, of motion.c and of
-- run_report.c is answered by a `Radio` over any type of worlds. Results of a scan arrive while the
-- program sleeps or asks whether the scan is still on: they come with those answers. A heading is a C
-- float, only copied here, kept as its bits.
pub mod Filter
pub mod Operations
pub mod Views
pub mod Sampling
pub mod Sequence
pub mod Numbering
mod Tests
use inf2004_aai19_embedded_s.Common.{
  ℕ, zero, suc, ◌+◌, ◌-◌, ◌*◌, ◌/◌, ◌^◌, ◌%◌, ◌≡◌, Bool, true, false, not, ◌&&◌, ◌||◌, Option, none,
  some, List, [], ◌∷◌, ◌++◌, length, take, drop, get_or, u8, u32, ltb, leb, ◌==◌, ◌/=◌,
  if◌then◌else◌,
}
use inf2004_aai19_embedded_s.Common.Int.{ℤ, pos, negsuc, ltb_ℤ, leb_ℤ, ◌-ℤ◌}
use inf2004_aai19_embedded_s.PackedBits.{rssi_missing_code, rssi_encode}
use inf2004_aai19_embedded_s.Faults.{Fault, fault_raise, fault_clear}
use inf2004_aai19_embedded_s.LineSearch.{Sample, missing}

abbrev pub scans_per_sample : ℕ
scans_per_sample = 5

abbrev pub min_valid_scans : ℕ
min_valid_scans = 3

-- The filter's insertion of a code: the array of the codes so far is held from its end, so a code
-- goes past those that are greater.
unfoldable pub insert_code : ℕ → List ℕ → List ℕ
insert_code code [] = code ∷ []
insert_code code (x ∷ xs) = if ltb code x then x ∷ insert_code code xs else code ∷ x ∷ xs

abbrev pub is_reading : ℕ → Bool
is_reading code = not (leb rssi_missing_code code || code == 0)

unfoldable pub keep_code : ℕ → List ℕ → List ℕ
keep_code code sorted = if is_reading code then insert_code code sorted else sorted

unfoldable pub sort_codes : List ℕ → List ℕ → List ℕ
sort_codes sorted [] = sorted
sort_codes sorted (c ∷ cs) = sort_codes (keep_code c sorted) cs

abbrev pub sum : List ℕ → ℕ
sum [] = 0
sum (x ∷ xs) = x + sum xs

unfoldable pub trimmed : List ℕ → Sample
trimmed sorted =
    let valid = length sorted in
    let trim = valid / 4 in
    let kept = valid - 2 * trim in
    if ltb valid min_valid_scans then missing else record {
      code = (sum (take kept (drop trim sorted)) + kept / 2) / kept;
      spread = get_or sorted trim 0 - get_or sorted (valid - trim - 1) 0;
    }

unfoldable pub wifi_filter : List ℕ → Sample
wifi_filter codes = trimmed (sort_codes [] (take scans_per_sample codes))

-- `wifi_record_t`
pub record WifiRecord : Type 0 where
  pub wall_ms : ℕ
  pub powered_ms : ℕ
  pub scan_id : ℕ
  pub heading : ℕ
  pub code : ℕ
  pub stopped : Bool

-- `cyw43_ev_scan_result_t`, the fields that are read.
pub record ScanResult : Type 0 where
  pub ssid_len : ℕ
  pub ssid : List ℕ
  pub rssi : ℤ
  pub bssid : List ℕ

-- What the sampler asks. `can_continue` is the function that it was given.
pub data Call : Type 0 where
  now_ms can_continue drive_active drive_elapsed motion_stop report_ok : Call
  start_scan scan_active sleep : Call

-- `start_scan` answers with the error; results that arrived come with the last two.
abbrev pub Answer : Call → Type 0
Answer Call.now_ms = ℕ
Answer Call.can_continue = Bool
Answer Call.drive_active = Bool
Answer Call.drive_elapsed = ℕ
Answer Call.motion_stop = Unit {0}
Answer Call.report_ok = Bool
Answer Call.start_scan = ℤ
Answer Call.scan_active = Bool × List ScanResult
Answer Call.sleep = List ScanResult

-- `moving_samples` is LINE_SEARCH_MOVING_SAMPLES; `polls` bounds the wait for a scan's end.
pub record Radio (W : Type 0) : Type 0 where
  pub answer : (c : Call) → W → Answer c × W
  pub moving_samples : Bool
  pub polls : ℕ

pub record Sampler (W : Type 0) : Type 0 where
  pub world : W
  pub faults : ℕ
  pub records : List WifiRecord
  pub pending : WifiRecord
  pub pending_bssid : List ℕ
  pub target_bssid : List ℕ
  pub identity_locked : Bool
  pub scan_open : Bool
  pub moving_scan : Bool
  pub fallback : Bool
  pub sampler_failed : Bool
  pub qualification_windows : ℕ
  pub scan_started_ms : ℕ
  pub scan_id : ℕ
  pub position_ms : ℕ
  pub max_start_ms : ℕ
  pub position_heading : ℕ
  pub position_forwards : Bool
  pub moving_reference : Sample
  pub moving_codes : List ℕ
  pub moving_window_started_ms : ℕ
  -- what `sampler_flush` has reported, newest first
  pub reported : List WifiRecord

abbrev pub wifi_record_capacity : ℕ
wifi_record_capacity = 64

abbrev pub qualification_needed : ℕ
qualification_needed = 3

abbrev pub scan_start_limit_ms : ℕ
scan_start_limit_ms = 5

abbrev pub scan_timeout_ms : ℕ
scan_timeout_ms = 15000

abbrev pub wifi_moving_interval_ms : ℕ
wifi_moving_interval_ms = 750

-- "I AM PICO W"
abbrev pub ap1_ssid : List ℕ
ap1_ssid = 73 ∷ 32 ∷ 65 ∷ 77 ∷ 32 ∷ 80 ∷ 73 ∷ 67 ∷ 79 ∷ 32 ∷ 87 ∷ []

abbrev pub bytes_equal : List ℕ → List ℕ → Bool
bytes_equal [] [] = true
bytes_equal (x ∷ xs) (y ∷ ys) = x == y && bytes_equal xs ys
bytes_equal _ _ = false

-- An action of the sampler.
abbrev pub M : Type 0 → Type 0 → Type 0
M W A = Sampler W → A × Sampler W

module _ {W A : Type 0} where
  abbrev pub pure : A → M W A
  pure a s = (a, s)

  abbrev pub gets : (Sampler W → A) → M W A
  gets f s = (f s, s)

module _ {W A B : Type 0} where
  infixl 5 ◌>>=◌ ◌>>◌
  unfoldable pub ◌>>=◌ : M W A → (A → M W B) → M W B
  ◌>>=◌ m f s = let (a, t) = m s in f a t

  abbrev pub ◌>>◌ : M W A → M W B → M W B
  m >> n = m >>= λ _. n

abbrev pub modify : {W : Type 0} → (Sampler W → Sampler W) → M W (Unit {0})
modify f s = (tt, f s)

unfoldable pub ask : {W : Type 0} → Radio W → (c : Call) → M W (Answer c)
ask radio c s = let given = radio.answer c s.world in (given.0, record s { world = given.1 })

abbrev pub raise : {W : Type 0} → Fault → M W (Unit {0})
raise fault = modify (λ s. record s { faults = fault_raise fault s.faults })
