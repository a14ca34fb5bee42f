-- ===== src/Colour.antt =====
-- getting_there/colour_mat.c and the arrival rule of getting_there/colour_sensor.c: the robot has
-- arrived when three readings in a row are of a dark ring of the mat, after a lighter part of the
-- mat was seen. A reading over I2C is an input, `none` if it fails.
pub mod Arrival
mod Tests
use inf2004_aai19_embedded_s.Common.{
  ℕ, zero, suc, ◌+◌, ◌*◌, ◌/◌, ◌^◌, ◌%◌, Bool, true, false, ◌&&◌, ◌||◌, not, Option, none, some,
  List, [], ◌∷◌, u16, ltb, leb, ◌==◌, if◌then◌else◌,
}
use inf2004_aai19_embedded_s.Common.Int.{ℤ, pos, negsuc}

-- `colour_zone_t`
pub data Zone : Type 0 where
  unknown floor white ring1 ring2 ring3 ring4 ring5 : Zone

abbrev pub zone_code : Zone → ℕ
zone_code Zone.unknown = 0
zone_code Zone.floor = 1
zone_code Zone.white = 2
zone_code Zone.ring1 = 3
zone_code Zone.ring2 = 4
zone_code Zone.ring3 = 5
zone_code Zone.ring4 = 6
zone_code Zone.ring5 = 7

abbrev pub arrival_zone : Zone
arrival_zone = Zone.ring4

-- `colour_reading_t`
pub record Reading : Type 0 where
  pub c : ℕ
  pub r : ℕ
  pub g : ℕ
  pub b : ℕ

unfoldable pub colour_gr_x1000 : Reading → ℕ
colour_gr_x1000 x =
    let ratio = x.g * 1000 / x.r in
    if x.r == 0 then 0xFFFF else if ltb 0xFFFF ratio then 0xFFFF else u16 ratio

unfoldable pub colour_classify : Reading → Zone
colour_classify x =
    let gr = colour_gr_x1000 x in
    let mat_blue = leb 842 (x.b * 1000 / x.r) in
    if ltb x.c 600 || x.r == 0
    then Zone.unknown
    else if leb 968 gr
    then (if mat_blue then Zone.white else Zone.floor)
    else if leb 856 gr
    then (if ltb 4660 x.c && mat_blue then Zone.ring1 else Zone.floor)
    else if leb 707 gr
    then Zone.ring2
    else if leb 552 gr
    then Zone.ring3
    else if leb 409 gr
    then Zone.ring4
    else Zone.ring5

unfoldable pub colour_zone_depth : Zone → ℤ
colour_zone_depth Zone.unknown = negsuc 0
colour_zone_depth Zone.floor = pos 0
colour_zone_depth Zone.white = pos 1
colour_zone_depth Zone.ring1 = pos 2
colour_zone_depth Zone.ring2 = pos 3
colour_zone_depth Zone.ring3 = pos 4
colour_zone_depth Zone.ring4 = pos 5
colour_zone_depth Zone.ring5 = pos 6

-- The static variables of colour_sensor.c.
pub record Sensor : Type 0 where
  pub available : Bool
  pub lighter_mat_seen : Bool
  pub on_mat : Bool
  pub last_depth : ℤ
  pub failed_checks : ℕ

unfoldable pub colour_arrival_reset : Sensor → Sensor
colour_arrival_reset s = record s {
  lighter_mat_seen = false;
  on_mat = false;
  last_depth = negsuc 0;
  failed_checks = 0;
}

unfoldable pub colour_on_mat : Sensor → Bool
colour_on_mat s = s.available && s.on_mat

unfoldable pub colour_last_depth : Sensor → ℤ
colour_last_depth s = if s.available then s.last_depth else negsuc 0

abbrev pub colour_note_lighter_mat : Sensor → Sensor
colour_note_lighter_mat s = record s { lighter_mat_seen = true }

abbrev pub colour_lighter_mat_zone : Zone → Bool
colour_lighter_mat_zone z =
    leb (zone_code Zone.white) (zone_code z) && ltb (zone_code z) (zone_code arrival_zone)

abbrev pub is_mat : Zone → Bool
is_mat z = leb (zone_code Zone.white) (zone_code z)

abbrev pub is_dark : Zone → Bool
is_dark z = not (ltb (zone_code z) (zone_code arrival_zone))

-- The three readings of a check: the first that fails ends it.
pub record Readings : Type 0 where
  pub first : Option Reading
  pub second : Option Reading
  pub third : Option Reading

-- The zones of a check whose readings all succeed.
unfoldable pub zones_of : Readings → Option (Zone × Zone × Zone)
zones_of x = from x.first x.second x.third
  where
    from : Option Reading → Option Reading → Option Reading → Option (Zone × Zone × Zone)
    from (some a) (some b) (some c) = some (colour_classify a, colour_classify b, colour_classify c)
    from _ _ _ = none

-- A check with a reading that failed.
unfoldable pub failed_check : Sensor → Sensor
failed_check s =
    let n = s.failed_checks + 1 in
    record s { failed_checks = n; available = if leb 3 n then false else s.available }

-- A check with three zones.
unfoldable pub finished_check : Zone → Zone → Zone → Sensor → Bool × Sensor
finished_check a b c s = (
  is_dark a && is_dark b && is_dark c && s.lighter_mat_seen,
  record s {
    failed_checks = 0;
    lighter_mat_seen =
        s.lighter_mat_seen
        || colour_lighter_mat_zone a
        || colour_lighter_mat_zone b
        || colour_lighter_mat_zone c;
    on_mat = is_mat a || is_mat b || is_mat c;
    last_depth = colour_zone_depth c;
  },
)

unfoldable pub check_zones : Option (Zone × Zone × Zone) → Sensor → Bool × Sensor
check_zones none s = (false, failed_check s)
check_zones (some (a, b, c)) s = finished_check a b c s

unfoldable pub colour_arrival_check : Readings → Sensor → Bool × Sensor
colour_arrival_check x s =
    let cleared = record s { on_mat = false; last_depth = negsuc 0 } in
    if not s.available then (false, s) else check_zones (zones_of x) cleared
