-- ===== src/Time/Date/Civil.antt =====
-- `convert_to_std_time` against the Gregorian calendar.
use vk.Prelude.{
  ℕ, ◌+◌, ◌-◌, ◌*◌, ◌/◌, ◌%◌, ◌^◌, ◌≤◌, ◌<◌, ◌≡◌, ◌≢◌, ◌⊎◌, refl, sym, ap, ◌∙◌, zero, suc, Bool,
  true, false, not, if◌then◌else◌, ◌==◌, ltb, leb, ◌&&◌, ◌||◌, [], ◌∷◌, get_or, done, Bool-cases,
  inl, inr, arith, ltb→lt, ==→eq, ==→ne,
}
use vk.Time.Date.{leap_since_1900, fall_through, month_seconds, year_loop, convert_to_std_time}

-- The leap years among those up to `y`.
abbrev pub leaps : ℕ → ℕ
leaps y = y / 4 - y / 100 + y / 400

abbrev pub is_leap : ℕ → Bool
is_leap y = (y % 4 == 0) && (not (y % 100 == 0) || (y % 400 == 0))

-- The days in a common year before the month, which counts from 1.
abbrev pub days_before : ℕ → ℕ
days_before month =
    get_or (0 ∷ 0 ∷ 31 ∷ 59 ∷ 90 ∷ 120 ∷ 151 ∷ 181 ∷ 212 ∷ 243 ∷ 273 ∷ 304 ∷ 334 ∷ []) month 0

-- The days from 1 January 1970 to a day of the Gregorian calendar, of which `leap` says whether the
-- year has a 29 February.
abbrev pub civil_days : Bool → ℕ → ℕ → ℕ → ℕ
civil_days leap y month day =
    365 * (y - 1970)
    + (leaps (y - 1) - 477)
    + days_before month
    + (if leap && ltb 2 month then 1 else 0)
    + (day - 1)

-- The days of the years from 1970 to `y`.
abbrev year_days : ℕ → ℕ
year_days y = 365 * (y - 1969) + (leaps y - 477)

year_days-step :
    (y : ℕ)
    → 1969 < y
    → year_days y * 86400
      ≡ year_days (y - 1) * 86400
        + 365 * 86400
        + (if y % 4 == 0
            then (if y % 100 == 0 then (if y % 400 == 0 then 86400 else 0) else 86400)
            else 0)
year_days-step y lt = elim (Bool-cases (y % 4 == 0)) [
  | inr a ↦ let e = ==→ne (y % 4) 0 a in rw a (omega (arith, e))
  | inl a ↦
      let e = ==→eq (y % 4) 0 a in
      elim (Bool-cases (y % 100 == 0)) [
        | inr b ↦ let f = ==→ne (y % 100) 0 b in rw (a, b) (omega (arith, e, f))
        | inl b ↦
            let f = ==→eq (y % 100) 0 b in
            elim (Bool-cases (y % 400 == 0)) [
              | inr c ↦ let g = ==→ne (y % 400) 0 c in rw (a, b, c) (omega (arith, f, g))
              | inl c ↦ let g = ==→eq (y % 400) 0 c in rw (a, b, c) (omega (arith, g))
            ]
      ]
]

year_loop_lem :
    (rounds y tr : ℕ)
    → 1969 ≤ y
    → y - 1969 < rounds
    → tr < 2 ^ 32
    → year_loop rounds y tr ≡ done ((tr + year_days y * 86400) % 2 ^ 32)
unfolding year_loop
year_loop_lem zero y tr le lt small = absurd (omega arith)
year_loop_lem (suc rounds) y tr le lt small = elim (Bool-cases (ltb 1969 y)) [
  | inl more ↦
      let gt = ltb→lt 1969 y more in
      rw more (
        year_loop_lem rounds (y - 1) _ (omega arith) (omega arith) (omega arith)
        ∙ ap done (omega (arith, year_days-step y gt)))
  | inr stop ↦ let e : y ≡ 1969 = ground (arith, stop) in rw stop (ap done (omega (arith, e)))
]

fall_through_lem :
    (leap : Bool) (month : ℕ)
    → month < 12
    → fall_through leap month
      ≡ 86400 * (days_before (month + 1) + (if leap && ltb 2 (month + 1) then 1 else 0))
unfolding fall_through
fall_through_lem true zero lt = refl
fall_through_lem true (suc zero) lt = refl
fall_through_lem true (suc (suc zero)) lt = refl
fall_through_lem true (suc (suc (suc zero))) lt = refl
fall_through_lem true (suc (suc (suc (suc zero)))) lt = refl
fall_through_lem true (suc (suc (suc (suc (suc zero))))) lt = refl
fall_through_lem true (suc (suc (suc (suc (suc (suc zero)))))) lt = refl
fall_through_lem true (suc (suc (suc (suc (suc (suc (suc zero))))))) lt = refl
fall_through_lem true (suc (suc (suc (suc (suc (suc (suc (suc zero)))))))) lt = refl
fall_through_lem true (suc (suc (suc (suc (suc (suc (suc (suc (suc zero))))))))) lt = refl
fall_through_lem true (suc (suc (suc (suc (suc (suc (suc (suc (suc (suc zero)))))))))) lt = refl
fall_through_lem true (suc (suc (suc (suc (suc (suc (suc (suc (suc (suc (suc zero))))))))))) lt =
    refl
fall_through_lem true (suc (suc (suc (suc (suc (suc (suc (suc (suc (suc (suc (suc m)))))))))))) lt =
    absurd (omega arith)
fall_through_lem false zero lt = refl
fall_through_lem false (suc zero) lt = refl
fall_through_lem false (suc (suc zero)) lt = refl
fall_through_lem false (suc (suc (suc zero))) lt = refl
fall_through_lem false (suc (suc (suc (suc zero)))) lt = refl
fall_through_lem false (suc (suc (suc (suc (suc zero))))) lt = refl
fall_through_lem false (suc (suc (suc (suc (suc (suc zero)))))) lt = refl
fall_through_lem false (suc (suc (suc (suc (suc (suc (suc zero))))))) lt = refl
fall_through_lem false (suc (suc (suc (suc (suc (suc (suc (suc zero)))))))) lt = refl
fall_through_lem false (suc (suc (suc (suc (suc (suc (suc (suc (suc zero))))))))) lt = refl
fall_through_lem false (suc (suc (suc (suc (suc (suc (suc (suc (suc (suc zero)))))))))) lt = refl
fall_through_lem false (suc (suc (suc (suc (suc (suc (suc (suc (suc (suc (suc zero))))))))))) lt =
    refl
fall_through_lem false (suc (suc (suc (suc (suc (suc (suc (suc (suc (suc (suc (suc m))))))))))))
      lt =
    absurd (omega arith)

month_seconds_lem :
    (year month : ℕ)
    → 0 < month
    → month ≤ 12
    → month_seconds year ((month + 255) % 256)
      ≡ 86400 * (days_before month + (if leap_since_1900 year && ltb 2 month then 1 else 0))
unfolding month_seconds
month_seconds_lem year month pos le =
    let m : (month + 255) % 256 ≡ month - 1 = omega arith in
    let b : leb (month - 1) 11 ≡ true = ground arith in
    let back : month - 1 + 1 ≡ month = omega arith in
    rw (m, b) (fall_through_lem (leap_since_1900 year) (month - 1) (omega arith) ∙ rw back refl)

-- In January and February it makes no difference whether the year is a leap year.
civil_days_early :
    (leap : Bool) (y month day : ℕ)
    → month ≤ 2
    → civil_days leap y month day ≡ civil_days false y month day
civil_days_early true y month day h = let b : ltb 2 month ≡ false = ground arith in rw b refl
civil_days_early false y month day h = refl

-- With the code's own test for leap years.
convert_to_std_time_lem :
    (seconds minutes hours day month year : ℕ)
    → 70 ≤ year
    → year < 256
    → 0 < month
    → month ≤ 12
    → 0 < day
    → convert_to_std_time seconds minutes hours day month year
      ≡ done (
          (86400 * civil_days (leap_since_1900 year) (1900 + year) month day
            + 3600 * hours
            + 60 * minutes
            + seconds)
          % 2 ^ 32)
unfolding convert_to_std_time
convert_to_std_time_lem seconds minutes hours day month year from to pos le some =
    let m = month_seconds_lem year month pos le in
    rw m (
      year_loop_lem 256 (1900 + year - 1) _ (omega arith) (omega arith) (omega arith)
      ∙ ap done (omega arith))

leap_since_1900_lem :
    (year : ℕ) → 70 ≤ year → year < 256 → year ≢ 100 → leap_since_1900 year ≡ is_leap (1900 + year)
leap_since_1900_lem year from to ne = ground arith

-- For a day of the Gregorian calendar from 1970 to 2155, but not in March to December 2000,
-- `convert_to_std_time` returns the seconds since 1970, modulo 2^32.
pub convert_to_std_time-civil :
    (seconds minutes hours day month year : ℕ)
    → 70 ≤ year
    → year < 256
    → 0 < month
    → month ≤ 12
    → 0 < day
    → (year ≢ 100) ⊎ (month ≤ 2)
    → convert_to_std_time seconds minutes hours day month year
      ≡ done (
          (86400 * civil_days (is_leap (1900 + year)) (1900 + year) month day
            + 3600 * hours
            + 60 * minutes
            + seconds)
          % 2 ^ 32)
convert_to_std_time-civil seconds minutes hours day month year from to pos le some (inl ne) =
    rw⁻¹ (leap_since_1900_lem year from to ne)
      (convert_to_std_time_lem seconds minutes hours day month year from to pos le some)
convert_to_std_time-civil seconds minutes hours day month year from to pos le some (inr early) =
    convert_to_std_time_lem seconds minutes hours day month year from to pos le some
    ∙ ap (λ (d : ℕ). done ((86400 * d + 3600 * hours + 60 * minutes + seconds) % 2 ^ 32))
        (civil_days_early (leap_since_1900 year) (1900 + year) month day early
          ∙ sym (civil_days_early (is_leap (1900 + year)) (1900 + year) month day early))

-- From March to December 2000 the time is a day short: the test for leap years takes the years
-- since 1900 for the year.
pub convert_to_std_time-short :
    (seconds minutes hours day month : ℕ)
    → 2 < month
    → month ≤ 12
    → 0 < day
    → convert_to_std_time seconds minutes hours day month 100
      ≡ done (
          (86400 * (civil_days true 2000 month day - 1) + 3600 * hours + 60 * minutes + seconds)
          % 2 ^ 32)
convert_to_std_time-short seconds minutes hours day month late le some =
    let b : ltb 2 month ≡ true = ground arith in
    convert_to_std_time_lem seconds minutes hours day month 100 (omega arith) (omega arith)
      (omega arith) le some
    ∙ ap done (rw b (omega arith))
