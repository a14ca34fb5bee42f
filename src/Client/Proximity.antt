-- ===== src/Client/Proximity.antt =====
-- payload_client.c, `target_advertisement`, `filtered_rssi` and `advertisement_received`: the client
-- goes on to a connection once three trimmed means of twelve readings in a row are strong enough.
-- BTstack's iterator over an advertisement is the list of its fields.
use inf2004_aai19_embedded_s.Common.{
  ℕ, zero, suc, ◌+◌, ◌-◌, ◌*◌, ◌/◌, ◌%◌, ◌^◌, Bool, true, false, ◌&&◌, ◌||◌, not, List, [], ◌∷◌,
  length, get_or, set, ltb, leb, ◌==◌, if◌then◌else◌,
}
use inf2004_aai19_embedded_s.Common.Int.{ℤ, pos, negsuc, neg, ◌+ℤ◌, ◌-ℤ◌, ltb_ℤ, leb_ℤ}
use inf2004_aai19_embedded_s.Wire.{service_uuid, protocol_version, read_u16}
use inf2004_aai19_embedded_s.PackedBits.{
  bitarray_get, bitarray_put, rssi_bits, rssi_encode, rssi_decode,
}
use inf2004_aai19_embedded_s.Client.{
  BleState, Flag, Call, Client, World, target_beacon_id, rssi_sample_count, required_close_averages,
  flag, flag_assign, call, set_state,
}

pub record AdField : Type 0 where
  pub data_type : ℕ
  pub bytes : List ℕ

-- An advertising report; `rssi` is the byte of the event.
pub record Advertisement : Type 0 where
  pub fields : List AdField
  pub rssi : ℕ
  pub address : List ℕ
  pub address_type : ℕ

-- The cast to `int8_t` of a byte.
unfoldable pub int8 : ℕ → ℤ
int8 n = if ltb n 128 then pos n else neg (256 - n)

-- C's division of an `int` by a positive one, towards 0.
unfoldable pub quotient : ℤ → ℕ → ℤ
quotient (pos n) d = pos (n / d)
quotient (negsuc n) d = neg ((n + 1) / d)

-- The readings that `filtered_rssi` copies into its array, from the reading `i` on.
unfoldable pub readings : ℕ → ℕ → List ℕ → List ℤ
readings zero i samples = []
readings (suc left) i samples =
    rssi_decode (bitarray_get samples i rssi_bits) ∷ readings left (i + 1) samples

-- The `while` of the sort, with `j` as in the source, and the assignment behind it.
unfoldable pub shift_down : ℕ → ℤ → List ℤ → List ℤ
shift_down zero value sorted = set sorted 0 value
shift_down (suc j) value sorted =
    let rest = shift_down j value (set sorted (suc j) (get_or sorted j (pos 0))) in
    if ltb_ℤ value (get_or sorted j (pos 0)) then rest else set sorted (suc j) value

-- The loop of the sort from `i` on, with `left` rounds to go.
unfoldable pub sort_rounds : ℕ → ℕ → List ℤ → List ℤ
sort_rounds zero i sorted = sorted
sort_rounds (suc left) i sorted =
    sort_rounds left (i + 1) (shift_down i (get_or sorted i (pos 0)) sorted)

unfoldable pub sum_from : ℕ → ℕ → List ℤ → ℤ → ℤ
sum_from zero i sorted sum = sum
sum_from (suc left) i sorted sum = sum_from left (i + 1) sorted (sum +ℤ get_or sorted i (pos 0))

unfoldable pub trimmed_mean : List ℤ → ℤ
trimmed_mean values =
    let sorted = sort_rounds (rssi_sample_count - 1) 1 values in
    let trim = rssi_sample_count / 4 in
    let count = rssi_sample_count - 2 * trim in
    quotient (sum_from count trim sorted (pos 0) -ℤ pos (count / 2)) count

unfoldable pub filtered_rssi : List ℕ → ℤ
filtered_rssi samples = trimmed_mean (readings rssi_sample_count 0 samples)

-- `service_data` is BTstack's BLUETOOTH_DATA_TYPE_SERVICE_DATA.
module _ (service_data : ℕ) where
  unfoldable pub target_field : AdField → Bool
  target_field f =
      f.data_type == service_data
      && leb 4 (length f.bytes)
      && read_u16 f.bytes 0 == service_uuid
      && get_or f.bytes 2 0 == protocol_version
      && get_or f.bytes 3 0 == target_beacon_id

  unfoldable pub target_advertisement : List AdField → Bool
  target_advertisement [] = false
  target_advertisement (f ∷ fs) =
      let rest = target_advertisement fs in if target_field f then true else rest

  module _ (world : World) where
    -- The reading is stored, and counted until there are twelve.
    unfoldable pub add_sample : ℤ → Client → Client
    add_sample rssi c =
        let k = c.counters in
        record c {
          rssi_samples = bitarray_put c.rssi_samples k.sample_index rssi_bits (rssi_encode rssi);
          counters = record k {
            sample_index = (k.sample_index + 1) % rssi_sample_count;
            sample_count =
                if ltb k.sample_count rssi_sample_count
                then (k.sample_count + 1) % 2 ^ 4
                else k.sample_count;
          };
        }

    -- The count of strong averages in a row.
    unfoldable pub count_average : Client → Client
    count_average c = record c {
      counters = record c.counters {
        close_count =
            if leb_ℤ c.close_rssi_dbm (filtered_rssi c.rssi_samples)
            then (c.counters.close_count + 1) % 2 ^ 2
            else 0;
      };
    }

    unfoldable pub confirm_close : Advertisement → Client → Client
    confirm_close a c = call Call.stop_scan (
        set_state world BleState.stopping_for_connect
          (record (flag_assign Flag.close_confirmed true c) {
            beacon_address = a.address;
            beacon_address_type = a.address_type;
          }))

    unfoldable pub advertisement_received : Advertisement → Client → Client
    advertisement_received a c =
        let rssi = int8 a.rssi in
        let c1 = add_sample rssi c in
        let c2 = count_average c1 in
        if flag Flag.abort_requested c || not (target_advertisement a.fields)
        then c
        else if leb_ℤ (pos 0) rssi || leb_ℤ rssi (negsuc 126)
        then c
        else if ltb c1.counters.sample_count rssi_sample_count
        then c1
        else if ltb c2.counters.close_count required_close_averages
        then c2
        else confirm_close a c2
