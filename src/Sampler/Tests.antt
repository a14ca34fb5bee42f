-- ===== src/Sampler/Tests.antt =====
-- A radio that hears the access point: each scan is on for two polls and brings one result for each.
use mathlib.Core.List.Perm
use inf2004_aai19_embedded_s.Common.{
  ℕ, ◌+◌, ◌-◌, ◌*◌, ◌≤◌, ◌≡◌, refl, true, false, List, [], ◌∷◌, ◌++◌, ltb, arith, ◌/◌,
}
use inf2004_aai19_embedded_s.Common.Int.{pos, negsuc}
use inf2004_aai19_embedded_s.PackedBits.{rssi_encode}
use inf2004_aai19_embedded_s.Sampler.{
  ScanResult, Call, Answer, Radio, Sampler, insert_code, keep_code, sort_codes, trimmed,
  wifi_filter, ◌>>=◌, ask, scans_per_sample, ap1_ssid,
}
use inf2004_aai19_embedded_s.Sampler.Operations.{
  Outcome, empty_scan, is_target, sampler_position, sampler_result, deliver, scan_is_active,
  open_scan, after_start, sampler_begin, finished_scan, record_scan, sampler_collect, sampler_flush,
  quiesce_loop, collect_and_flush, wifi_sampler_quiesce, sample_loop, qualify, finish_sample,
  wifi_sampler_sample,
}
use inf2004_aai19_embedded_s.Sampler.Views.{ids}
use inf2004_aai19_embedded_s.Sampler.Filter.{wifi_filter_outlier}
use inf2004_aai19_embedded_s.Sampler.Numbering.{
  numbered, unreported, quiesce_reports_all, sample_reports_five,
}

abbrev readings : List ℕ
readings = 50 ∷ 54 ∷ 52 ∷ 127 ∷ 56 ∷ []

wifi_filter_outlier_example :
    (50 ≤ (wifi_filter readings).code) × ((wifi_filter readings).code ≤ 56)
wifi_filter_outlier_example =
    wifi_filter_outlier 50 56 (omega arith) (omega arith) 50 54 52 56 127 readings
      (omega arith, omega arith) (omega arith, omega arith) (omega arith, omega arith)
      (omega arith, omega arith) (Perm.cons 50 (Perm.cons 54 (Perm.cons 52 (Perm.swap 56 127 []))))

record World : Type 0 where
  clock : ℕ
  busy : ℕ

abbrev heard : ℕ → ScanResult
heard clock = record {
  ssid_len = 11;
  ssid = ap1_ssid;
  rssi = negsuc (50 + (clock - 5 * (clock / 5)));
  bssid = 1 ∷ 2 ∷ 3 ∷ 4 ∷ 5 ∷ 6 ∷ [];
}

abbrev reply : (c : Call) → World → Answer c × World
reply Call.now_ms w = (w.clock, w)
reply Call.can_continue w = (true, w)
reply Call.drive_active w = (false, w)
reply Call.drive_elapsed w = (0, w)
reply Call.motion_stop w = (tt, w)
reply Call.report_ok w = (true, w)
reply Call.start_scan w = (pos 0, record { clock = w.clock + 1; busy = 2 })
reply Call.scan_active w = ((ltb 0 w.busy, []), w)
reply Call.sleep w = (heard w.clock ∷ [], record { clock = w.clock + 5; busy = w.busy - 1 })

abbrev receiver : Radio World
receiver = record { answer = reply; moving_samples = true; polls = 10 }

abbrev fresh : Sampler World
fresh = record {
  world = record { clock = 100; busy = 0 };
  faults = 0;
  records = [];
  pending = empty_scan;
  pending_bssid = [];
  target_bssid = [];
  identity_locked = false;
  scan_open = false;
  moving_scan = false;
  fallback = false;
  sampler_failed = false;
  qualification_windows = 0;
  scan_started_ms = 0;
  scan_id = 7;
  position_ms = 0;
  max_start_ms = 0;
  position_heading = 0;
  position_forwards = true;
  moving_reference = record { code = 127; spread = 0 };
  moving_codes = [];
  moving_window_started_ms = 0;
  reported = [];
}

abbrev scanning : Sampler World
scanning = record fresh {
  scan_open = true;
  scan_started_ms = 100;
  pending = record empty_scan { scan_id = 7 };
  world = record { clock = 101; busy = 2 };
}

quiesced : (wifi_sampler_quiesce receiver scanning).0 ≡ Outcome.done tt
unfolding wifi_sampler_quiesce ◌>>=◌ ask quiesce_loop collect_and_flush sampler_collect
    sampler_flush scan_is_active deliver sampler_result sampler_position is_target finished_scan
    record_scan rssi_encode
quiesced = refl

quiesce_reports_all_example :
    let t = (wifi_sampler_quiesce receiver scanning).1 in
    (scanning.sampler_failed ≡ false)
    × (t.sampler_failed ≡ false)
    × (t.scan_open ≡ false)
    × (t.records ≡ [])
    × (ids t.reported ≡ unreported scanning ++ ids scanning.reported)
quiesce_reports_all_example = quiesce_reports_all receiver scanning quiesced

sampled : (wifi_sampler_sample receiver fresh).0 ≡ Outcome.done (record { code = 53; spread = 2 })
unfolding wifi_sampler_sample wifi_sampler_quiesce ◌>>=◌ ask quiesce_loop collect_and_flush
    sampler_collect sampler_flush scan_is_active deliver sampler_result sampler_position is_target
    finished_scan record_scan rssi_encode sample_loop sampler_begin open_scan after_start qualify
    finish_sample wifi_filter sort_codes keep_code insert_code trimmed
sampled = refl

sample_reports_five_example :
    let t = (wifi_sampler_sample receiver fresh).1 in
    (t.sampler_failed ≡ false)
    × (t.scan_open ≡ false)
    × (t.records ≡ [])
    × (ids t.reported
        ≡ numbered scans_per_sample fresh.scan_id (unreported fresh ++ ids fresh.reported))
sample_reports_five_example =
    sample_reports_five receiver fresh (record { code = 53; spread = 2 }) sampled
