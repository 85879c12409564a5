-- ===== src/Time/Date.antt =====
-- `convert_to_std_time` of time/time.c. An `int32_t` is its two's complement. `year` counts from
-- 1900.
pub mod Civil
mod Tests
use vk.Prelude.{
  ℕ, ◌+◌, ◌-◌, ◌*◌, ◌/◌, ◌%◌, ◌^◌, zero, suc, Bool, true, false, not, if◌then◌else◌, ◌==◌, ltb, leb,
  List, [], ◌∷◌, get_or, ◌&&◌, ◌||◌, Outcome, done, no_fuel,
}

-- The test in case 2 of the switch.
abbrev pub leap_since_1900 : ℕ → Bool
leap_since_1900 year = (year % 4 == 0) && (not (year % 100 == 0) || (year % 400 == 0))

-- The days that each case of the switch adds; that of case 0 is the default.
abbrev pub case_days : Bool → ℕ → ℕ
case_days leap month =
    get_or (0 ∷ 31 ∷ (if leap then 29 else 28) ∷ 31 ∷ 30 ∷ 31 ∷ 30 ∷ 31 ∷ 31 ∷ 30 ∷ 31 ∷ 30 ∷ [])
      month 0

-- The case of the month, which counts from 0, and all cases below it, since each falls through.
pub fall_through : Bool → ℕ → ℕ
fall_through leap zero = 0
fall_through leap (suc month) = case_days leap (suc month) * 86400 + fall_through leap month

pub month_seconds : ℕ → ℕ → ℕ
unfolding fall_through
month_seconds year month =
    let cases = fall_through (leap_since_1900 year) month in if leb month 11 then cases else 0

-- The loop over the years.
unfoldable pub year_loop : ℕ → ℕ → ℕ → Outcome ℕ
year_loop zero years tr = no_fuel
year_loop (suc rounds) years tr =
    let day =
      if years % 4 == 0
      then (if years % 100 == 0 then (if years % 400 == 0 then 86400 else 0) else 86400)
      else 0 in
    let rest = year_loop rounds (years - 1) ((tr + 365 * 86400 + day) % 2 ^ 32) in
    if ltb 1969 years then rest else done tr

unfoldable pub convert_to_std_time : ℕ → ℕ → ℕ → ℕ → ℕ → ℕ → Outcome ℕ
unfolding month_seconds year_loop
convert_to_std_time seconds minutes hours day month year =
    let tr = (seconds + 60 * minutes + 3600 * hours + 86400 * (day + (2 ^ 32 - 1))) % 2 ^ 32 in
    let years = 1900 + year - 1 in
    let tr' = (tr + month_seconds year ((month + 255) % 256)) % 2 ^ 32 in year_loop 256 years tr'
