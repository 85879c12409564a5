-- ===== src/Tasking/Groups/Tests.antt =====
-- A table of three groups.
use vk.Prelude.{◌+◌, ◌*◌, ◌≡◌, some, done, arith}
use vk.Tasking.Groups.{Groups, get_group}
use vk.Tasking.Groups.Search.{get_group-finds}

-- The groups 3, 5 and 7.
abbrev table : Groups
table = record { gid = λ k. 2 * k + 3; groups_number = 3; groups_size = 10 }

get_group-finds_example : get_group 4 table 7 ≡ done (some 2)
get_group-finds_example =
    get_group-finds 4 table 2 (λ i j lt inside. omega arith) (omega arith) (omega arith)
      (omega arith) (omega arith)
