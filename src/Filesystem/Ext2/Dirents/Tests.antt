-- ===== src/Filesystem/Ext2/Dirents/Tests.antt =====
-- A directory of 24 bytes: the file ab of inode 2, and behind it the file a of inode 3; and one in
-- which the second file is b.
use vk.Prelude.{ℕ, ◌≡◌, refl, [], ◌∷◌, if◌then◌else◌, ◌==◌, some, done, arith}
use vk.Filesystem.Ext2.Dirents.{dirent_size, begins, find_dirent, remove_from}
use vk.Filesystem.Ext2.Dirents.Walk.{IsLaid, find_dirent-IsLaid}
use vk.Filesystem.Ext2.Dirents.Remove.{remove_from-last}

abbrev directory : ℕ → ℕ
directory q =
    if q == 0
    then 2
    else if q == 6
    then 2
    else if q == 8
    then b'a'
    else if q == 9
    then b'b'
    else if q == 12
    then 3
    else if q == 18
    then 1
    else if q == 20
    then b'a'
    else 0

directory-IsLaid : IsLaid directory 0 24 (0 ∷ 12 ∷ [])
unfolding dirent_size
directory-IsLaid = (refl, omega arith, (refl, omega arith, refl))

-- The file a is looked for, and ab is taken.
find_dirent-IsLaid_example : find_dirent 3 directory 0 24 (b'a' ∷ []) ≡ done (some 0)
unfolding begins
find_dirent-IsLaid_example =
    find_dirent-IsLaid 3 directory 0 24 (0 ∷ 12 ∷ []) (b'a' ∷ []) directory-IsLaid (omega arith)

abbrev other_directory : ℕ → ℕ
other_directory q = if q == 20 then b'b' else directory q

other_directory-IsLaid : IsLaid other_directory 0 24 (0 ∷ 12 ∷ [])
unfolding dirent_size
other_directory-IsLaid = (refl, omega arith, (refl, omega arith, refl))

-- The file b is to be removed, and stays.
remove_from-last_example :
    (m' : ℕ → ℕ) × (remove_from 2 other_directory 0 24 (b'b' ∷ []) ≡ done (some m'))
    × ((q : ℕ) → m' q ≡ other_directory q)
unfolding begins
remove_from-last_example =
    remove_from-last 2 other_directory 0 24 (0 ∷ []) 12 (b'b' ∷ []) other_directory-IsLaid
      (omega arith) (omega arith) ((omega arith, refl), tt) (omega arith) refl
