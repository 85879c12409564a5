-- ===== src/Time/Readable/Tests.antt =====
-- A second of the year 2021.
use vk.Prelude.{◌≡◌, refl, done}
use vk.Time.Readable.{Readable, convert_to_readable_time}
use vk.Time.Readable.Ranges.{IsInRange, convert_to_readable_time-IsInRange}

-- 3 December 2021, 17:45:09
convert_to_readable_time-december :
    convert_to_readable_time 1638553509
    ≡ done (record { seconds = 9; minutes = 45; hour = 17; day = 3; month = 12; year = 121 })
unfolding convert_to_readable_time
convert_to_readable_time-december = refl

convert_to_readable_time-IsInRange_example :
    (r : Readable) × (convert_to_readable_time 1638553509 ≡ done r) × IsInRange r
convert_to_readable_time-IsInRange_example = convert_to_readable_time-IsInRange 1638553509
