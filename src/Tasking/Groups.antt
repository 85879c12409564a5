-- ===== src/Tasking/Groups.antt =====
-- `get_group` of tasking/processes/groups.c. The numbers of groups are not negative.
pub mod Search
mod Tests
use vk.Prelude.{
  ℕ, ◌+◌, ◌*◌, ◌/◌, ◌%◌, ◌^◌, ◌-◌, zero, suc, if◌then◌else◌, ◌==◌, ltb, leb, Option, none, some,
  Outcome, done, wild, no_fuel,
}

-- The table `groups` with `groups_number` and `groups_size`; behind its entries a table holds any
-- numbers.
pub record Groups : Type 0 where
  pub gid : ℕ → ℕ
  pub groups_number : ℕ
  pub groups_size : ℕ

-- The loop: the place of the group, if it is there. `wild` for a place that is not in the table.
pub search : ℕ → Groups → ℕ → ℕ → ℕ → Outcome (Option ℕ)
search zero groups gid start end = no_fuel
search (suc rounds) groups gid start end =
    let off = (start + end) % 2 ^ 32 / 2 in
    let above = search rounds groups gid (off + 1) end in
    let below = search rounds groups gid start ((off + (2 ^ 32 - 1)) % 2 ^ 32) in
    if ltb end start
    then done none
    else if leb groups.groups_size off
    then wild
    else if groups.gid off == gid
    then done (some off)
    else if ltb (groups.gid off) gid
    then above
    else below

unfoldable pub get_group : ℕ → Groups → ℕ → Outcome (Option ℕ)
unfolding search
get_group rounds groups gid = search rounds groups gid 0 groups.groups_number
