-- ===== src/Filesystem/Ext2/Dirents/Walk.antt =====
-- The walks along a directory whose entries fill it.
use vk.Prelude.{
  ℕ, ◌+◌, ◌-◌, ◌%◌, ◌^◌, ◌≤◌, ◌<◌, ◌≡◌, refl, ap, ◌∙◌, zero, suc, Bool, false, not, List, [], ◌∷◌,
  if◌then◌else◌, ◌==◌, ltb, ◌&&◌, Bool-cases, inl, inr, length, Option, none, some, done, arith,
}
use vk.Filesystem.Ext2.Dirents.{dirent_inode, dirent_size, begins, find_dirent, free_offset}

-- The entries stand at the places of the list, one behind the other, and fill the bytes from `a` on.
abbrev pub IsLaid : (ℕ → ℕ) → ℕ → ℕ → List ℕ → Type 0
IsLaid m a len [] = len ≡ 0
IsLaid m a len (o ∷ os) =
    (o ≡ a) × (dirent_size m a ≤ len) × IsLaid m (a + dirent_size m a) (len - dirent_size m a) os

abbrev pub is_named : (ℕ → ℕ) → List ℕ → ℕ → Bool
is_named m name o = not (dirent_inode m o == 0) && begins m (o + 8) name

-- The first of the places at which the test holds.
abbrev pub first_of : (ℕ → Bool) → List ℕ → Option ℕ
first_of test [] = none
first_of test (o ∷ os) = let rest = first_of test os in if test o then some o else rest

pub size-pos : (m : ℕ → ℕ) (a : ℕ) → 8 ≤ dirent_size m a
unfolding dirent_size
size-pos m a = omega arith

-- In a directory that its entries fill, and with a round more than it has entries, or more,
-- `ext2_open` ends at the first entry in use whose name begins with the name that is looked for, if
-- there is one, and otherwise finds none.
pub find_dirent-IsLaid :
    (rounds : ℕ) (m : ℕ → ℕ) (a len : ℕ) (os name : List ℕ)
    → IsLaid m a len os
    → length os < rounds
    → find_dirent rounds m a len name ≡ done (first_of (is_named m name) os)
unfolding find_dirent
find_dirent-IsLaid zero m a len os name laid fuel = absurd (omega arith)
find_dirent-IsLaid (suc rounds) m a len [] name laid fuel = rw laid refl
find_dirent-IsLaid (suc rounds) m a len (o ∷ os) name (here, fits, laid) fuel =
    let some_left : (len == 0) ≡ false = ground (arith, fits, size-pos m a) in
    let enough : ltb len (dirent_size m a) ≡ false = ground (arith, fits) in
    let ih =
      find_dirent-IsLaid rounds m (a + dirent_size m a) (len - dirent_size m a) os name laid
        (omega arith) in
    elim (Bool-cases (is_named m name a)) [
      | inl same ↦ rw (here, some_left, same) refl
      | inr other ↦ rw (here, some_left, other, enough) ih
    ]

abbrev pub end_or : ℕ → Option ℕ → ℕ
end_or e none = e
end_or e (some o) = o

-- In a directory that its entries fill, and with a round more than it has entries, or more,
-- `ext2_create_dirent` puts the new entry at the first one that is not in use, or else at the end.
pub free_offset-IsLaid :
    (rounds : ℕ) (m : ℕ → ℕ) (a len : ℕ) (os : List ℕ)
    → IsLaid m a len os
    → len < 2 ^ 64
    → length os < rounds
    → free_offset rounds m a len
      ≡ done (end_or (a + len) (first_of (λ o. dirent_inode m o == 0) os))
unfolding free_offset
free_offset-IsLaid zero m a len os laid small fuel = absurd (omega arith)
free_offset-IsLaid (suc rounds) m a len [] laid small fuel =
    let z : a ≡ a + 0 = omega arith in rw laid (ap (λ (q : ℕ). done q) z)
free_offset-IsLaid (suc rounds) m a len (o ∷ os) (here, fits, laid) small fuel =
    let size = dirent_size m a in
    let some_left : (len == 0) ≡ false = ground (arith, fits, size-pos m a) in
    let down : (len + (2 ^ 64 - size)) % 2 ^ 64 ≡ len - size = omega (arith, fits, size-pos m a) in
    let e : a + size + (len - size) ≡ a + len = omega (arith, fits) in
    let ih =
      free_offset-IsLaid rounds m (a + size) (len - size) os laid (omega arith) (omega arith) in
    elim (Bool-cases (dirent_inode m a == 0)) [
      | inl free ↦ rw (here, some_left, free) refl
      | inr used ↦
          rw (here, some_left, used, down)
            (ih ∙ ap (λ q. done (end_or q (first_of (λ o. dirent_inode m o == 0) os))) e)
    ]
