-- ===== src/Time/Date/Tests.antt =====
-- Days in 1970, 2000 and 2021.
use vk.Prelude.{◌+◌, ◌*◌, ◌%◌, ◌^◌, ◌≡◌, inl, refl, done, arith}
use vk.Time.Date.{convert_to_std_time}
use vk.Time.Date.Civil.{is_leap, civil_days, convert_to_std_time-civil}

convert_to_std_time-epoch : convert_to_std_time 0 0 0 1 1 70 ≡ done 0
unfolding convert_to_std_time
convert_to_std_time-epoch = refl

-- 3 December 2021, 17:45:09
convert_to_std_time-civil_example :
    convert_to_std_time 9 45 17 3 12 121
    ≡ done (
        (86400 * civil_days (is_leap (1900 + 121)) (1900 + 121) 12 3 + 3600 * 17 + 60 * 45 + 9)
        % 2 ^ 32)
convert_to_std_time-civil_example =
    convert_to_std_time-civil 9 45 17 3 12 121 (omega arith) (omega arith) (omega arith)
      (omega arith) (omega arith) (inl (omega arith))
