-- ===== src/Time/Readable.antt =====
-- `convert_to_readable_time` of time/time.c, for times from 1970 on.
pub mod Ranges
mod Tests
use vk.Prelude.{
  ℕ, ◌+◌, ◌-◌, ◌*◌, ◌/◌, ◌%◌, ◌^◌, zero, suc, Bool, true, false, not, List, [], ◌∷◌, if◌then◌else◌,
  ◌==◌, ltb, leb, ◌&&◌, Outcome, done, wild, ◌>>=◌,
}

-- `year` counts from 1900, `month` and `day` from 1.
pub record Readable : Type 0 where
  pub seconds : ℕ
  pub minutes : ℕ
  pub hour : ℕ
  pub day : ℕ
  pub month : ℕ
  pub year : ℕ

abbrev pub monthdays : List ℕ
monthdays = 31 ∷ 29 ∷ 31 ∷ 30 ∷ 31 ∷ 30 ∷ 31 ∷ 31 ∷ 30 ∷ 31 ∷ 30 ∷ 31 ∷ []

-- The loop over the months: the days that are left, and the month from 0 on.
pub find_month : List ℕ → ℕ → ℕ → Outcome (ℕ × ℕ)
find_month [] time month = wild
find_month (days ∷ rest) time month =
    let later = find_month rest (time - days) (month + 1) in
    if leb days time then later else done (time, month)

-- The year, and the day in it, where February has 29 days, of a day that counts from the last day
-- of 1899.
pub year_and_day : ℕ → ℕ × ℕ
year_and_day days =
    let year = days / 1461 * 4 % 256 in
    let rest = days % 1461 in
    let year' = if ltb 365 rest then (year + (rest - 1) / 365) % 256 else year in
    let rest' = if ltb 365 rest then (rest - 1) % 365 else rest in
    (year', if not (year' % 4 == 0) && leb 59 rest' then rest' + 1 else rest')

pub convert_to_readable_time : ℕ → Outcome Readable
unfolding find_month year_and_day
convert_to_readable_time time =
    let (year, rest) = year_and_day (time / 60 / 60 / 24 + 25568) in
    find_month monthdays rest 0 >>= λ (left, month). done (record {
      seconds = time % 60;
      minutes = time / 60 % 60;
      hour = time / 60 / 60 % 24;
      day = (left + 1) % 256;
      month = month + 1;
      year = year;
    })
