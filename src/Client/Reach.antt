-- ===== src/Client/Reach.antt =====
-- Every state that payload_client.c can get into: any callbacks in any order, in any world, with the
-- main loop's own changes between them.
use inf2004_aai19_embedded_s.Common.{
  ℕ, ◌≤◌, ◌≡◌, Bool, true, false, not, ◌&&◌, some, List, take, length, if◌then◌else◌, leb, arith,
}
use inf2004_aai19_embedded_s.Common.Int.{ℤ}
use inf2004_aai19_embedded_s.Wire.{crc32, max_file_size}
use inf2004_aai19_embedded_s.Faults.{Fault}
use inf2004_aai19_embedded_s.Client.{
  Result, Flag, Client, World, power_on, flag, flag_assign, raise, set_state,
}
use inf2004_aai19_embedded_s.Client.Radio.{
  Callback, run_callback, payload_client_init, set_close_threshold, set_close_callback,
  payload_client_data,
}
use inf2004_aai19_embedded_s.Client.Attempt.{
  Attempt, Outcome, Readings, prepare_attempt, begin_attempt, announce_close, request_abort,
  cleaning_up, round, elapsed, cleanup_timeout_ms,
}
use inf2004_aai19_embedded_s.Client.Sound.{IsSound}
use inf2004_aai19_embedded_s.Client.Events.{run_callback-IsSound}

abbrev pub client_of : Outcome → Client
client_of (Outcome.returned r c) = c
client_of (Outcome.looping a) = a.client

-- One step: a callback, a call of the main loop's functions, or a round of an attempt's loop.
pub data Step (service_data : ℕ) : Client → Client → Type 0 where
  callback :
      (world : World) (k : Callback) (c : Client)
      → Step service_data c (run_callback service_data world k c)
  initialise : (c : Client) → Step service_data c (payload_client_init c)
  threshold : (dbm : ℤ) (c : Client) → Step service_data c (set_close_threshold dbm c)
  attempt :
      (world : World) (reconnect : Bool) (begun : ℕ) (c : Client)
      → Step service_data c (client_of (begin_attempt world reconnect begun c))
  loop_round : (t : Readings) (a : Attempt) → Step service_data a.client (client_of (round t a))
  close_callback : (given : Bool) (c : Client) → Step service_data c (set_close_callback given c)

pub data Reach (service_data : ℕ) : Client → Type 0 where
  from_power_on : Reach service_data power_on
  more : {c d : Client} → Reach service_data c → Step service_data c d → Reach service_data d

power_on-IsSound : IsSound power_on
unfolding power_on
power_on-IsSound = ground arith

attempt-IsSound :
    (world : World) (reconnect : Bool) (begun : ℕ) (c : Client)
    → IsSound c
    → IsSound (client_of (begin_attempt world reconnect begun c))
unfolding begin_attempt prepare_attempt set_state
attempt-IsSound world reconnect begun c s = ground arith

announce_close-IsSound : (a : Attempt) → IsSound a.client → IsSound (announce_close a).client
unfolding announce_close
announce_close-IsSound a s = ground arith

request_abort-IsSound :
    (t : Readings) (a : Attempt) → IsSound a.client → IsSound (request_abort t a).client
unfolding request_abort
request_abort-IsSound t a s = ground arith

data HasSound : Outcome → Type 0 where
  returned : {r : Result} {c : Client} → IsSound c → HasSound (Outcome.returned r c)
  looping : {a : Attempt} → IsSound a.client → HasSound (Outcome.looping a)

HasSound-if : (b : Bool) {x y : Outcome} → HasSound x → HasSound y → HasSound (if b then x else y)
HasSound-if true hx hy = hx
HasSound-if false hx hy = hy

client_of-IsSound : {o : Outcome} → HasSound o → IsSound (client_of o)
client_of-IsSound (HasSound.returned s) = s
client_of-IsSound (HasSound.looping s) = s

abort_flag-IsSound : (c : Client) → IsSound c → IsSound (flag_assign Flag.abort_requested true c)
abort_flag-IsSound c s = ground arith

raised-IsSound : (f : Fault) (c : Client) → IsSound c → IsSound (raise f c)
raised-IsSound f c s = ground arith

round-HasSound : (t : Readings) (a : Attempt) → IsSound a.client → HasSound (round t a)
unfolding round
round-HasSound t a s =
    let s1 = announce_close-IsSound a s in
    let s2 = request_abort-IsSound t (announce_close a) s1 in
    let c1 = (announce_close a).client in
    let a2 = request_abort t (announce_close a) in
    HasSound-if (not (flag Flag.attempt_running a.client)) (HasSound.returned s) (
      HasSound-if
        (cleaning_up c1 && leb cleanup_timeout_ms (elapsed t.phase_now c1.phase_started_ms))
        (HasSound.returned (
          raised-IsSound Fault.ble_radio (flag_assign Flag.abort_requested true c1)
            (abort_flag-IsSound c1 s1)))
        (HasSound-if
          (flag Flag.abort_requested a2.client
            && leb cleanup_timeout_ms (elapsed t.cleanup_now a2.abort_started))
          (HasSound.returned (raised-IsSound Fault.ble_radio a2.client s2)) (HasSound.looping s2)))

initialised-IsSound : (c : Client) → IsSound c → IsSound (payload_client_init c)
unfolding payload_client_init
initialised-IsSound c s = ground arith

threshold-IsSound : (dbm : ℤ) (c : Client) → IsSound c → IsSound (set_close_threshold dbm c)
unfolding set_close_threshold
threshold-IsSound dbm c s = ground arith

close_callback-IsSound :
    (given : Bool) (c : Client) → IsSound c → IsSound (set_close_callback given c)
unfolding set_close_callback
close_callback-IsSound given c s = ground arith

pub Step-IsSound : {n : ℕ} {c d : Client} → Step n c d → IsSound c → IsSound d
Step-IsSound {n = n} (Step.callback world k c) s = run_callback-IsSound n world k c s
Step-IsSound (Step.initialise c) s = initialised-IsSound c s
Step-IsSound (Step.threshold dbm c) s = threshold-IsSound dbm c s
Step-IsSound (Step.attempt world reconnect begun c) s = attempt-IsSound world reconnect begun c s
Step-IsSound (Step.loop_round t a) s = client_of-IsSound (round-HasSound t a s)
Step-IsSound (Step.close_callback given c) s = close_callback-IsSound given c s

Reach-IsSound : {n : ℕ} {c : Client} → Reach n c → IsSound c
Reach-IsSound Reach.from_power_on = power_on-IsSound
Reach-IsSound (Reach.more r step) = Step-IsSound step (Reach-IsSound r)

-- In every state the client can get into, when `payload_client_data` gives a reply, the reply has 1
-- to 256 bytes, and their checksum is the one that the beacon announced with the reply.
pub verified_reply :
    (n : ℕ) (c : Client) (size : ℕ) (file : List ℕ)
    → Reach n c
    → payload_client_data c ≡ some (size, file)
    → (1 ≤ size)
      × (size ≤ max_file_size)
      × (size ≤ length file)
      × (crc32 (take size file) ≡ c.reply_crc)
unfolding payload_client_data
verified_reply n c size file r e = let s = Reach-IsSound r in ground arith
