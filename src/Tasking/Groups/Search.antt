-- ===== src/Tasking/Groups/Search.antt =====
-- What the search finds.
use vk.Prelude.{
  ℕ, ◌+◌, ◌/◌, ◌%◌, ◌^◌, ◌-◌, ◌≤◌, ◌<◌, ◌≡◌, refl, zero, suc, true, false, ◌==◌, ltb, leb,
  Bool-cases, inl, inr, ==→eq, ==→ne, ==_refl, some, done, wild, arith,
}
use vk.Tasking.Groups.{Groups, search, get_group}

-- The entries are in order, without doubles.
abbrev pub IsSorted : Groups → Type 0
IsSorted g = (i j : ℕ) → i < j → j < g.groups_number → g.gid i < g.gid j

search-finds :
    (rounds : ℕ) (g : Groups) (i start end : ℕ)
    → IsSorted g
    → g.groups_number ≤ g.groups_size
    → g.groups_number < 2 ^ 31
    → i < g.groups_number
    → start ≤ i
    → i ≤ end
    → end ≤ g.groups_number
    → end < start + rounds
    → search rounds g (g.gid i) start end ≡ done (some i)
unfolding search
search-finds zero g i start end sorted room small inside low high last fuel = absurd (omega arith)
search-finds (suc rounds) g i start end sorted room small inside low high last fuel =
    let off = (start + end) / 2 in
    let wrap : (start + end) % 2 ^ 32 ≡ start + end = omega arith in
    let more : ltb end start ≡ false = ground arith in
    let valid : leb g.groups_size off ≡ false = ground arith in
    elim (Bool-cases (off == i)) [
      | inl here ↦ let e = ==→eq off i here in rw (more, wrap, valid, e, ==_refl (g.gid i)) refl
      | inr apart ↦ elim (Bool-cases (ltb off i)) [
        | inl before ↦
            let less = sorted off i (ground (arith, before)) inside in
            let ne : (g.gid off == g.gid i) ≡ false = ground (arith, less) in
            let lt : ltb (g.gid off) (g.gid i) ≡ true = ground (arith, less) in
            rw (more, wrap, valid, ne, lt)
              (search-finds rounds g i (off + 1) end sorted room small inside
                (ground (arith, before)) high last (omega arith))
        | inr behind ↦
            let gt : i < off = ground (arith, behind, apart) in
            let more_than = sorted i off gt (omega arith) in
            let ne : (g.gid off == g.gid i) ≡ false = ground (arith, more_than) in
            let lt : ltb (g.gid off) (g.gid i) ≡ false = ground (arith, more_than) in
            let down : (off + (2 ^ 32 - 1)) % 2 ^ 32 ≡ off - 1 = omega (arith, gt) in
            rw (more, wrap, valid, ne, lt, down)
              (search-finds rounds g i start (off - 1) sorted room small inside low
                (omega (arith, gt)) (omega arith) (omega (arith, gt)))
      ]
    ]

-- In a table that is in order, stands in its block and has less than 2^31 groups, `get_group` of the number of a group
-- finds that group, with one round more than there are groups, or
-- more.
pub get_group-finds :
    (rounds : ℕ) (g : Groups) (i : ℕ)
    → IsSorted g
    → g.groups_number ≤ g.groups_size
    → g.groups_number < 2 ^ 31
    → i < g.groups_number
    → g.groups_number < rounds
    → get_group rounds g (g.gid i) ≡ done (some i)
unfolding get_group
get_group-finds rounds g i sorted room small inside fuel =
    search-finds rounds g i 0 g.groups_number sorted room small inside (omega arith) (omega arith)
      (omega arith) (omega arith)

-- From the first place on up to 2^32 - 1 the search leaves the table at once.
search-far :
    (rounds : ℕ) (g : Groups) (gid : ℕ)
    → g.groups_size < 2 ^ 31
    → 0 < rounds
    → search rounds g gid 0 (2 ^ 32 - 1) ≡ wild
unfolding search
search-far zero g gid small fuel = absurd (omega arith)
search-far (suc rounds) g gid small fuel =
    let out : leb g.groups_size ((0 + (2 ^ 32 - 1)) % 2 ^ 32 / 2) ≡ true = ground arith in
    rw out refl

search-below :
    (rounds : ℕ) (g : Groups) (gid end : ℕ)
    → g.groups_number ≤ g.groups_size
    → g.groups_size < 2 ^ 31
    → 0 < g.groups_number
    → ((k : ℕ) → k < g.groups_number → gid < g.gid k)
    → end ≤ g.groups_number
    → end + 1 < rounds
    → search rounds g gid 0 end ≡ wild
unfolding search
search-below zero g gid end room small some_group above last fuel = absurd (omega arith)
search-below (suc rounds) g gid end room small some_group above last fuel =
    let off = end / 2 in
    let wrap : (0 + end) % 2 ^ 32 ≡ end = omega arith in
    let more : ltb end 0 ≡ false = ground arith in
    let valid : leb g.groups_size off ≡ false = ground arith in
    let greater = above off (omega arith) in
    let ne : (g.gid off == gid) ≡ false = ground (arith, greater) in
    let lt : ltb (g.gid off) gid ≡ false = ground (arith, greater) in
    elim (Bool-cases (off == 0)) [
      | inl first ↦
          let down : (off + (2 ^ 32 - 1)) % 2 ^ 32 ≡ 2 ^ 32 - 1 =
            omega (arith, ==→eq off 0 first) in
          rw (more, wrap, valid, ne, lt, down) (search-far rounds g gid small (omega arith))
      | inr later ↦
          let pos = ==→ne off 0 later in
          let down : (off + (2 ^ 32 - 1)) % 2 ^ 32 ≡ off - 1 = omega (arith, pos) in
          rw (more, wrap, valid, ne, lt, down)
            (search-below rounds g gid (off - 1) room small some_group above (omega arith)
              (omega (arith, pos)))
    ]

-- In a table that has a group, and whose block has less than 2^31 places, `get_group` of a number
-- below those of all groups does not return 0: with two rounds more than there are groups, or more,
-- its search goes on at 2^32 - 1 and leaves the table.
pub get_group-below :
    (rounds : ℕ) (g : Groups) (gid : ℕ)
    → g.groups_number ≤ g.groups_size
    → g.groups_size < 2 ^ 31
    → 0 < g.groups_number
    → ((k : ℕ) → k < g.groups_number → gid < g.gid k)
    → g.groups_number + 1 < rounds
    → get_group rounds g gid ≡ wild
unfolding get_group
get_group-below rounds g gid room small some_group above fuel =
    search-below rounds g gid g.groups_number room small some_group above (omega arith) fuel
