-- ===== src/Sampler/Operations.antt =====
-- getting_there/wifi_sampler.c: its operations, from a scan's start to a sample.
use inf2004_aai19_embedded_s.Common.{
  ℕ, zero, suc, ◌+◌, ◌-◌, ◌^◌, Bool, true, false, not, ◌&&◌, ◌||◌, List, [], ◌∷◌, ◌++◌, length,
  take, u8, u32, ltb, leb, ◌==◌, ◌/=◌, if◌then◌else◌,
}
use inf2004_aai19_embedded_s.Common.Int.{ℤ, pos, negsuc, ltb_ℤ, leb_ℤ, ◌-ℤ◌}
use inf2004_aai19_embedded_s.PackedBits.{rssi_missing_code, rssi_encode}
use inf2004_aai19_embedded_s.Faults.{Fault, fault_clear}
use inf2004_aai19_embedded_s.LineSearch.{Sample, missing}
use inf2004_aai19_embedded_s.Sampler.{
  wifi_filter, scans_per_sample, WifiRecord, ScanResult, Call, Radio, Sampler, M, pure, gets,
  modify, ask, raise, ◌>>=◌, ◌>>◌, wifi_record_capacity, qualification_needed, scan_start_limit_ms,
  scan_timeout_ms, wifi_moving_interval_ms, ap1_ssid, bytes_equal,
}

-- `uint32_t` difference of two clock readings.
abbrev pub since : ℕ → ℕ → ℕ
since now before = u32 (now + 2 ^ 32 - before)

-- What an operation that may wait comes to: its end, `return false`, or a wait for longer than the
-- polls that it is given, which is no result of the program.
pub data Outcome (A : Type 0) : Type 0 where
  done : A → Outcome A
  refused : Outcome A
  unending : Outcome A

abbrev pub after : {W A B : Type 0} → Outcome A → (A → M W (Outcome B)) → M W (Outcome B)
after (Outcome.done a) f = f a
after Outcome.refused f = pure Outcome.refused
after Outcome.unending f = pure Outcome.unending

abbrev pub empty_scan : WifiRecord
empty_scan = record {
  wall_ms = 0;
  powered_ms = 0;
  scan_id = 0;
  heading = 0;
  code = rssi_missing_code;
  stopped = false;
}

module _ {W : Type 0} where
  -- Whether a result is of the access point, and of the one that was found first.
  unfoldable pub is_target : ScanResult → Sampler W → Bool
  is_target r s =
      r.ssid_len == 11
      && ltb_ℤ r.rssi (pos 0)
      && ltb_ℤ (negsuc 126) r.rssi
      && bytes_equal (take 11 r.ssid) ap1_ssid
      && (not s.identity_locked || bytes_equal (take 6 r.bssid) s.target_bssid)

  unfoldable pub wifi_sampler_init : Sampler W → Sampler W
  wifi_sampler_init s = record s {
    records = [];
    qualification_windows = 0;
    moving_codes = [];
    scan_id = 0;
    position_ms = 0;
    max_start_ms = 0;
    position_heading = 0;
    position_forwards = true;
    identity_locked = false;
    scan_open = false;
    moving_scan = false;
    fallback = false;
    sampler_failed = false;
    moving_reference = missing;
  }

  unfoldable pub wifi_sampler_set_reference : Sample → Sampler W → Sampler W
  wifi_sampler_set_reference reference s = record s { moving_reference = reference }

module _ {W : Type 0} (radio : Radio W) where
  unfoldable pub wifi_sampler_moving_enabled : Sampler W → Bool
  wifi_sampler_moving_enabled s =
      radio.moving_samples && not s.fallback && leb qualification_needed s.qualification_windows

  unfoldable pub wifi_sampler_set_position : ℕ → ℕ → Bool → M W (Unit {0})
  wifi_sampler_set_position heading powered_ms forwards = do
    modify (λ s. record s {
      position_heading = heading;
      position_ms = powered_ms;
      position_forwards = forwards;
      moving_codes = [];
    })
    now ← ask radio Call.now_ms
    modify (λ s. record s { moving_window_started_ms = now })

  unfoldable pub sampler_position : M W ℕ
  sampler_position = do
    driven ← ask radio Call.drive_elapsed
    s ← gets (λ s. s)
    let elapsed = if s.moving_scan then driven else 0
    pure (
        if s.position_forwards
        then u32 (s.position_ms + elapsed)
        else if ltb elapsed s.position_ms
        then s.position_ms - elapsed
        else 0)

  -- A result is kept if it is the strongest of the scan so far.
  unfoldable pub sampler_result : ScanResult → M W (Unit {0})
  sampler_result r = do
    s ← gets (λ s. s)
    let code = u8 (rssi_encode r.rssi)
    if not (is_target r s) || leb s.pending.code code then pure tt else do
      wall ← ask radio Call.now_ms
      powered ← sampler_position
      active ← ask radio Call.drive_active
      modify (λ t. record t {
        pending_bssid = take 6 r.bssid;
        pending = record t.pending {
          wall_ms = wall;
          powered_ms = powered;
          stopped = not active;
          code = code;
        };
      })

  unfoldable pub deliver : List ScanResult → M W (Unit {0})
  deliver [] = pure tt
  deliver (r ∷ rs) = do sampler_result r; deliver rs

  unfoldable pub scan_is_active : M W Bool
  scan_is_active = do (active, results) ← ask radio Call.scan_active; deliver results; pure active

  -- The end of an operation that fails for good.
  unfoldable pub give_up : Fault → M W Bool
  give_up fault = do
    ask radio Call.motion_stop
    raise fault
    modify (λ s. record s { sampler_failed = true })
    pure false

  unfoldable pub open_scan : Bool → ℕ → Sampler W → Sampler W
  open_scan moving now s = record s {
    scan_id = u32 (s.scan_id + 1);
    pending = record empty_scan { scan_id = u32 (s.scan_id + 1); heading = s.position_heading };
    scan_started_ms = now;
    scan_open = true;
    moving_scan = moving;
    moving_window_started_ms =
        if moving && length s.moving_codes == 0 then now else s.moving_window_started_ms;
  }

  -- What follows the start of a scan, by its error.
  unfoldable pub after_start : Bool → ℕ → ℤ → M W Bool
  after_start moving elapsed (pos zero) =
      if moving && ltb scan_start_limit_ms elapsed
      then (do modify (λ s. record s { fallback = true }); ask radio Call.motion_stop; pure true)
      else pure true
  after_start moving elapsed error = do
    modify (λ s. record s { scan_open = false; sampler_failed = true })
    give_up Fault.wifi_scan

  unfoldable pub sampler_begin : Bool → M W Bool
  sampler_begin moving = do
    s ← gets (λ s. s)
    going ← if s.sampler_failed || s.scan_open then pure false else ask radio Call.can_continue
    if not going
        then pure false
        else if leb wifi_record_capacity (length s.records)
        then give_up Fault.profile
        else do
          now ← ask radio Call.now_ms
          modify (open_scan moving now)
          error ← ask radio Call.start_scan
          later ← ask radio Call.now_ms
          let elapsed = since later now
          modify (λ t. record t {
            max_start_ms = if ltb t.max_start_ms elapsed then elapsed else t.max_start_ms;
          })
          after_start moving elapsed error

  -- Five codes of a moving window: a hint to stop where the signal is weaker by the margin.
  unfoldable pub judge_window : M W (Unit {0})
  judge_window = do
    s ← gets (λ s. s)
    let sample = wifi_filter s.moving_codes
    let spread = s.moving_reference.spread + sample.spread + 1
    let margin = if ltb spread 3 then 3 else spread
    if s.moving_reference.code /= rssi_missing_code
          && leb_ℤ (pos margin) (pos sample.code -ℤ pos s.moving_reference.code)
        then ask radio Call.motion_stop
        else pure tt
    now ← ask radio Call.now_ms
    modify (λ t. record t { moving_codes = []; moving_window_started_ms = now })

  unfoldable pub note_moving : WifiRecord → M W (Unit {0})
  note_moving scan = do
    s ← gets (λ s. s)
    now ← if scan.code == rssi_missing_code then pure 0 else ask radio Call.now_ms
    if scan.code == rssi_missing_code
          || ltb wifi_moving_interval_ms (since now s.moving_window_started_ms)
        then (do modify (λ t. record t { fallback = true }); ask radio Call.motion_stop)
        else if scan.stopped
        then modify (λ t. record t { moving_codes = [] })
        else do
          modify (λ t. record t { moving_codes = t.moving_codes ++ scan.code ∷ [] })
          if length s.moving_codes + 1 == scans_per_sample then judge_window else pure tt

  -- The scan as it is recorded; the first one that found the access point says which it is.
  unfoldable pub finished_scan : M W WifiRecord
  finished_scan = do
    s ← gets (λ s. s)
    if s.pending.code == rssi_missing_code
        then (do
          wall ← ask radio Call.now_ms
          powered ← sampler_position
          active ← ask radio Call.drive_active
          pure (record s.pending { wall_ms = wall; powered_ms = powered; stopped = not active }))
        else if s.identity_locked
        then pure s.pending
        else do
          modify (λ t. record t { target_bssid = t.pending_bssid; identity_locked = true })
          pure s.pending

  unfoldable pub record_scan : WifiRecord → M W Bool
  record_scan scan = do
    s ← gets (λ s. s)
    if leb wifi_record_capacity (length s.records) then give_up Fault.profile else do
      modify (λ t. record t { records = scan ∷ t.records; scan_open = false })
      if s.moving_scan then note_moving scan else pure tt
      pure true

  unfoldable pub sampler_collect : M W Bool
  sampler_collect = do
    open_now ← gets (λ s. s.scan_open)
    active ← if open_now then scan_is_active else pure true
    if active then pure true else do scan ← finished_scan; record_scan scan

  unfoldable pub sampler_flush : M W Bool
  sampler_flush = do
    driving ← ask radio Call.drive_active
    open_now ← gets (λ s. s.scan_open)
    busy ← if driving || open_now then pure true else scan_is_active
    if busy then pure false else do
      modify (λ s. record s { reported = s.records ++ s.reported; records = [] })
      ask radio Call.report_ok

  -- The wait for the end of a scan, with the polls left.
  unfoldable pub quiesce_loop : ℕ → M W (Outcome (Unit {0}))
  quiesce_loop zero = pure Outcome.unending
  quiesce_loop (suc polls) = do
    s ← gets (λ s. s)
    active ← if s.scan_open then scan_is_active else pure false
    if not active then pure (Outcome.done tt) else do
      going ← ask radio Call.can_continue
      now ← if going then ask radio Call.now_ms else pure 0
      if not going || leb scan_timeout_ms (since now s.scan_started_ms)
          then (do
            raise Fault.wifi_scan
            modify (λ t. record t { sampler_failed = true })
            pure Outcome.refused)
          else do results ← ask radio Call.sleep; deliver results; quiesce_loop polls

  unfoldable pub collect_and_flush : M W (Outcome (Unit {0}))
  collect_and_flush = do
    collected ← sampler_collect
    flushed ← if collected then sampler_flush else pure false
    pure (if flushed then Outcome.done tt else Outcome.refused)

  unfoldable pub wifi_sampler_quiesce : M W (Outcome (Unit {0}))
  wifi_sampler_quiesce = do
    ask radio Call.motion_stop
    failed ← gets (λ s. s.sampler_failed)
    if failed
        then pure Outcome.refused
        else do waited ← quiesce_loop radio.polls; after waited (λ u. collect_and_flush)

  unfoldable pub wifi_sampler_poll_moving : M W Bool
  wifi_sampler_poll_moving = do
    going ← ask radio Call.can_continue
    s ← gets (λ s. s)
    now ←
        if going && wifi_sampler_moving_enabled s && s.scan_open
        then ask radio Call.now_ms
        else pure 0
    if not going
        then (do ask radio Call.motion_stop; pure false)
        else if not (wifi_sampler_moving_enabled s)
        then pure true
        else if s.scan_open && leb wifi_moving_interval_ms (since now s.scan_started_ms)
        then (do modify (λ t. record t { fallback = true }); ask radio Call.motion_stop; pure true)
        else do
          collected ← sampler_collect
          driving ← if collected then ask radio Call.drive_active else pure false
          t ← gets (λ t. t)
          if not collected
              then pure false
              else if driving && wifi_sampler_moving_enabled t && not t.scan_open
              then sampler_begin true
              else pure true

  -- The scans of a sample that are left.
  unfoldable pub sample_loop : ℕ → List ℕ → M W (Outcome (List ℕ))
  sample_loop zero readings = pure (Outcome.done readings)
  sample_loop (suc left) readings = do
    begun ← sampler_begin false
    if not begun then pure Outcome.refused else do
      quiet ← wifi_sampler_quiesce
      after quiet
          (λ u. do code ← gets (λ s. s.pending.code); sample_loop left (readings ++ code ∷ []))

  abbrev pub valid_readings : List ℕ → ℕ
  valid_readings [] = 0
  valid_readings (c ∷ cs) =
      if c /= rssi_missing_code then suc (valid_readings cs) else valid_readings cs

  unfoldable pub qualify : List ℕ → ℕ → Sampler W → Sampler W
  qualify readings elapsed s =
      if not s.fallback
        && valid_readings readings == scans_per_sample
        && leb elapsed wifi_moving_interval_ms
        && leb s.max_start_ms scan_start_limit_ms
      then record s {
        qualification_windows =
            if ltb s.qualification_windows qualification_needed
            then s.qualification_windows + 1
            else s.qualification_windows;
      }
      else record s {
        qualification_windows = 0;
        fallback = if radio.moving_samples then true else s.fallback;
      }

  unfoldable pub finish_sample : ℕ → List ℕ → M W (Outcome Sample)
  finish_sample start readings = do
    let sample = wifi_filter readings
    now ← ask radio Call.now_ms
    modify (qualify readings (since now start))
    if sample.code == rssi_missing_code
        then raise Fault.wifi_lost
        else modify (λ s. record s { faults = fault_clear Fault.wifi_lost s.faults })
    going ← ask radio Call.can_continue
    reported ← if going then ask radio Call.report_ok else pure false
    pure (if reported then Outcome.done sample else Outcome.refused)

  unfoldable pub wifi_sampler_sample : M W (Outcome Sample)
  wifi_sampler_sample = do
    quiet ← wifi_sampler_quiesce
    after quiet (λ u. do
      start ← ask radio Call.now_ms
      readings ← sample_loop scans_per_sample []
      after readings (finish_sample start))
