-- ===== src/Memory.antt =====
-- internal/memory/controller.go: the byte counter that the writer and the recorders share, and the
-- pressure level read from it. The counter is an int64, kept as its bit pattern. The two
-- conversions to float64, the quotient and its comparison round as IEEE 754 does.
pub mod Laws
pub mod Pressure
use record_storage.Common.{
  ℕ, zero, suc, ◌+◌, ◌-◌, ◌*◌, ◌/◌, ◌%◌, ◌==◌, Bool, true, false, ◌&&◌, ◌||◌, Option, none, some,
  ltb, leb, if◌then◌else◌,
}
use record_storage.Common.Words.{half64, u64_mod, u64, add64, sub64, lt_i64}
use record_storage.Sample.{FrameType, is_b, is_p}

pub record Controller : Type 0 where
  pub max_bytes : ℕ
  pub used_bytes : ℕ

pub data MemoryError : Type 0 where
  memory_limit : MemoryError

-- NewController; `int64(maxMB) * 1024 * 1024` wraps
unfoldable pub new_controller : ℕ → Controller
new_controller max_mb = record { max_bytes = u64 (max_mb * 1024 * 1024); used_bytes = 0 }

unfoldable pub allocate : Controller → ℕ → Controller × Option MemoryError
allocate c size =
    let new_used = add64 c.used_bytes size in
    if lt_i64 c.max_bytes new_used
    then (record c { used_bytes = sub64 new_used size }, some memory_limit)
    else (record c { used_bytes = new_used }, none)

unfoldable pub release : Controller → ℕ → Controller
release c size = record c { used_bytes = sub64 c.used_bytes size }

is_negative : ℕ → Bool
is_negative w = leb half64 w

magnitude : ℕ → ℕ
unfolding is_negative
magnitude w = if is_negative w then u64_mod - w else w

-- 2 ^ 53 and 2 ^ 54
abbrev pub exact : ℕ
exact = 9007199254740992

abbrev scale : ℕ
scale = 18014398509481984

-- The multiple of `step` that is nearest to n, of two such multiples the even one.
round_to : ℕ → ℕ → ℕ
round_to step n =
    let q = n / step in
    let r = n % step in
    if ltb (2 * r) step || ((2 * r == step) && (q % 2 == 0)) then q * step else (q + 1) * step

round_from : ℕ → ℕ → ℕ → ℕ
unfolding round_to
round_from zero step n = round_to step n
round_from (suc fuel) step n =
    let rest = round_from fuel (step * 2) n in
    if ltb n (exact * step) then round_to step n else rest

-- float64(n) for n up to 2 ^ 63: 53 bits, which takes at most ten doublings of the step after 2.
unfoldable pub to_float : ℕ → ℕ
unfolding round_from
to_float n = if ltb n exact then n else round_from 10 2 n

-- The constants 0.6, 0.8 and 0.9 as float64 are c / 2 ^ 53 for the numbers c below. A quotient
-- rounds to a smaller float64 than c / 2 ^ 53 exactly where it is below (2 * c - 1) / 2 ^ 54, the middle
-- between c / 2 ^ 53 and the float64 before it, or equal to it when c is odd, since a tie goes to the
-- even one.
abbrev six_tenths : ℕ
six_tenths = 5404319552844595

abbrev eight_tenths : ℕ
eight_tenths = 7205759403792794

abbrev nine_tenths : ℕ
nine_tenths = 8106479329266893

-- used / max < c / 2 ^ 53 in float64, for float64s used and max > 0
quotient_below : ℕ → ℕ → ℕ → Bool
quotient_below c used max =
    if c % 2 == 0
    then ltb (used * scale) ((2 * c - 1) * max)
    else leb (used * scale) ((2 * c - 1) * max)

-- float64(used) / float64(max) < c / 2 ^ 53. With max == 0 the ratio is NaN or an infinity.
ratio_below : ℕ → ℕ → ℕ → Bool
unfolding is_negative magnitude to_float quotient_below
ratio_below c used max =
    if max == 0
    then is_negative used
    else if is_negative used
    then (if is_negative max
        then quotient_below c (to_float (magnitude used)) (to_float (magnitude max))
        else true)
    else if is_negative max
    then true
    else quotient_below c (to_float used) (to_float max)

unfoldable pub get_pressure_level : Controller → ℕ
unfolding ratio_below
get_pressure_level c =
    if ratio_below six_tenths c.used_bytes c.max_bytes
    then 0
    else if ratio_below eight_tenths c.used_bytes c.max_bytes
    then 1
    else if ratio_below nine_tenths c.used_bytes c.max_bytes
    then 2
    else 3

-- `alloc` is what runtime.ReadMemStats reports as the heap in use.
unfoldable pub update_metrics : ℕ → Controller → Controller
update_metrics alloc c = record c { used_bytes = alloc }

drop_at_level : ℕ → FrameType → Bool
drop_at_level level frame_type =
    if leb level 1
    then false
    else if leb level 2
    then is_b frame_type
    else is_b frame_type || is_p frame_type

unfoldable pub should_drop_frame : Controller → FrameType → Bool
unfolding drop_at_level
should_drop_frame c frame_type = drop_at_level (get_pressure_level c) frame_type
