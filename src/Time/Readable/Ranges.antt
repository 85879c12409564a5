-- ===== src/Time/Readable/Ranges.antt =====
-- The loop over the months stays inside its table.
use vk.Prelude.{
  ℕ, ◌+◌, ◌-◌, ◌/◌, ◌%◌, ◌≤◌, ◌<◌, ◌≡◌, refl, List, [], ◌∷◌, leb, leb→le, Bool-cases, inl, inr,
  length, All, done, arith,
}
use vk.Time.Readable.{Readable, monthdays, find_month, year_and_day, convert_to_readable_time}

abbrev sum : List ℕ → ℕ
sum [] = 0
sum (d ∷ ds) = d + sum ds

find_month_lem :
    (list : List ℕ) (time month : ℕ)
    → time < sum list
    → All (λ d. d ≤ 31) list
    → (left : ℕ) × (m : ℕ) × (find_month list time month ≡ done (left, m))
      × (left < 31)
      × (m < month + length list)
unfolding find_month
find_month_lem [] time month lt h = absurd (omega arith)
find_month_lem (d ∷ ds) time month lt h = elim (Bool-cases (leb d time)) [
  | inl later ↦
      let le = leb→le d time later in
      let (left, m, e, short, inside) =
        find_month_lem ds (time - d) (month + 1) (omega arith) h.1 in
      rw later (left, m, e, short, omega (arith, inside))
  | inr here ↦
      let less : time < d = ground (arith, here) in
      rw here (time, month, refl, omega (arith, h.0), omega arith)
]

rest-lt : (days : ℕ) → (year_and_day days).1 < 366
unfolding year_and_day
rest-lt days = ground arith

pub record IsInRange (r : Readable) : Type 0 where
  pub seconds : r.seconds < 60
  pub minutes : r.minutes < 60
  pub hour : r.hour < 24
  pub some_day : 0 < r.day
  pub day : r.day ≤ 31
  pub some_month : 0 < r.month
  pub month : r.month ≤ 12

-- For every time from 1970 on `convert_to_readable_time` ends with its loop inside the table of the
-- months, and returns a month from 1 to 12, a day from 1 to 31, an hour below 24, and minutes and
-- seconds below 60.
pub convert_to_readable_time-IsInRange :
    (time : ℕ) → (r : Readable) × (convert_to_readable_time time ≡ done r) × IsInRange r
unfolding convert_to_readable_time
convert_to_readable_time-IsInRange time =
    let days = time / 60 / 60 / 24 + 25568 in
    let (left, m, e, short, inside) =
      find_month_lem monthdays (year_and_day days).1 0 (omega (arith, rest-lt days))
        (omega arith) in
    let small : (left + 1) % 256 ≡ left + 1 = omega (arith, short) in
    (
      record {
        seconds = time % 60;
        minutes = time / 60 % 60;
        hour = time / 60 / 60 % 24;
        day = left + 1;
        month = m + 1;
        year = (year_and_day days).0;
      },
      rw (e, small) refl,
      record {
        seconds = omega arith;
        minutes = omega arith;
        hour = omega arith;
        some_day = omega arith;
        day = omega (arith, short);
        some_month = omega arith;
        month = omega (arith, inside);
      },
    )
