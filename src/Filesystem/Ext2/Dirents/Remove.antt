-- ===== src/Filesystem/Ext2/Dirents/Remove.antt =====
-- What the removal of an entry does to a directory.
use vk.Prelude.{
  ℕ, ◌+◌, ◌-◌, ◌%◌, ◌^◌, ◌≤◌, ◌<◌, ◌≡◌, ◌≢◌, refl, ◌∙◌, zero, suc, true, false, List, [], ◌∷◌, ◌++◌,
  ◌==◌, ne→==, length, bytes, copy_in, All, some, done, arith,
}
use vk.Filesystem.Ext2.Dirents.{dirent_inode, dirent_size, begins, remove_from}
use vk.Filesystem.Ext2.Dirents.Walk.{IsLaid, size-pos}

-- The entry is in use and its name does not begin with the name.
abbrev pub IsOther : (ℕ → ℕ) → List ℕ → ℕ → Type 0
IsOther m name o = (dirent_inode m o ≢ 0) × (begins m (o + 8) name ≡ false)

bytes-none : (m : ℕ → ℕ) (a : ℕ) → bytes m a 0 ≡ []
unfolding bytes
bytes-none m a = refl

-- An entry of another name is passed by.
remove_from-other :
    (rounds : ℕ) (m : ℕ → ℕ) (a len : ℕ) (name : List ℕ)
    → dirent_size m a ≤ len
    → len < 2 ^ 32
    → dirent_inode m a ≢ 0
    → begins m (a + 8) name ≡ false
    → remove_from (suc rounds) m a len name
      ≡ remove_from rounds m (a + dirent_size m a) (len - dirent_size m a) name
unfolding remove_from
remove_from-other rounds m a len name fits small used apart =
    let some_left : (len == 0) ≡ false = ground (arith, fits, size-pos m a) in
    let u = ne→== (dirent_inode m a) 0 used in
    let down : (len + (2 ^ 64 - dirent_size m a)) % 2 ^ 64 ≡ len - dirent_size m a =
      omega (arith, fits, size-pos m a) in
    rw (some_left, down, u, apart) refl

-- In a directory of less than 4 GiB that its entries fill, and with as many rounds as it has entries,
-- or more, `ext2_remove_dirent` of the last entry, when all are in use and no name before it begins
-- with the name, changes no byte of the content.
pub remove_from-last :
    (rounds : ℕ) (m : ℕ → ℕ) (a len : ℕ) (os : List ℕ) (o : ℕ) (name : List ℕ)
    → IsLaid m a len (os ++ (o ∷ []))
    → len < 2 ^ 32
    → length os < rounds
    → All (IsOther m name) os
    → dirent_inode m o ≢ 0
    → begins m (o + 8) name ≡ true
    → (m' : ℕ → ℕ) × (remove_from rounds m a len name ≡ done (some m')) × ((q : ℕ) → m' q ≡ m q)
unfolding remove_from
remove_from-last zero m a len os o name laid small fuel others used same = absurd (omega arith)
remove_from-last (suc rounds) m a len [] o name (here, fits, full) small fuel others used same =
    let some_left : (len == 0) ≡ false = ground (arith, fits, size-pos m a) in
    let u = ne→== (dirent_inode m a) 0 (rw here at used) in
    let begun : begins m (a + 8) name ≡ true = rw here at same in
    let left : (len % 2 ^ 32 + (2 ^ 32 - dirent_size m a)) % 2 ^ 32 ≡ 0 =
      omega (arith, fits, full, size-pos m a) in
    (
      copy_in m a [],
      rw (some_left, left, u, begun, bytes-none m (a + dirent_size m a)) refl,
      λ q. ground arith,
    )
remove_from-last (suc rounds) m a len (p ∷ os) o name (here, fits, laid) small fuel (first, others)
      used same =
    let (m', e, kept) =
      remove_from-last rounds m (a + dirent_size m a) (len - dirent_size m a) os o name laid
        (omega arith) (omega arith) others used same in
    (
      m',
      remove_from-other rounds m a len name fits small (rw here at first.0) (rw here at first.1)
          ∙ e,
      kept,
    )
