-- ===== src/Filesystem/Ext2/Dirents.antt =====
-- The loops over the entries of a directory, whose content stands in memory from 0 on. Lengths are
-- of 64 bits.
pub mod Walk
pub mod Remove
mod Tests
use vk.Prelude.{
  ℕ, ◌+◌, ◌-◌, ◌*◌, ◌/◌, ◌%◌, ◌^◌, zero, suc, Bool, true, false, not, List, [], ◌∷◌, if◌then◌else◌,
  ◌==◌, ltb, ◌&&◌, u32_at, align_up, bytes, copy_in, Option, none, some, Outcome, done, no_fuel,
}

-- The inode of an entry, and how many bytes the functions take it to have: those before the name,
-- and the name up to a multiple of four.
abbrev pub dirent_inode : (ℕ → ℕ) → ℕ → ℕ
dirent_inode m offset = u32_at m offset

pub dirent_size : (ℕ → ℕ) → ℕ → ℕ
unfolding align_up
dirent_size m offset = 8 + align_up (m (offset + 6)) 4

-- `strcfirst` of the name of an entry and the name comes to the length of the name: the name of the
-- entry begins with it.
pub begins : (ℕ → ℕ) → ℕ → List ℕ → Bool
begins m a [] = true
begins m a (c ∷ cs) = let rest = begins m (a + 1) cs in (m a == c) && rest

-- The loop of `ext2_open`: where the entry is that it takes for the name.
pub find_dirent : ℕ → (ℕ → ℕ) → ℕ → ℕ → List ℕ → Outcome (Option ℕ)
unfolding dirent_size begins
find_dirent zero m offset length name = no_fuel
find_dirent (suc rounds) m offset length name =
    let size = dirent_size m offset in
    let rest = find_dirent rounds m (offset + size) (length - size) name in
    if length == 0
    then done none
    else if not (dirent_inode m offset == 0) && begins m (offset + 8) name
    then done (some offset)
    else if ltb length size
    then done none
    else rest

-- The loop of `ext2_create_dirent`: where the new entry goes.
pub free_offset : ℕ → (ℕ → ℕ) → ℕ → ℕ → Outcome ℕ
unfolding dirent_size
free_offset zero m offset length = no_fuel
free_offset (suc rounds) m offset length =
    let size = dirent_size m offset in
    let rest = free_offset rounds m (offset + size) ((length + (2 ^ 64 - size)) % 2 ^ 64) in
    if length == 0 then done offset else if dirent_inode m offset == 0 then done offset else rest

-- The loop of `ext2_remove_dirent`: the content that is written back, or none for
-- ERROR_FILE_NOT_FOUND.
pub remove_from : ℕ → (ℕ → ℕ) → ℕ → ℕ → List ℕ → Outcome (Option (ℕ → ℕ))
unfolding dirent_size begins
remove_from zero m offset length name = no_fuel
remove_from (suc rounds) m offset length name =
    let size = dirent_size m offset in
    let rest = remove_from rounds m (offset + size) ((length + (2 ^ 64 - size)) % 2 ^ 64) name in
    let left = (length % 2 ^ 32 + (2 ^ 32 - size)) % 2 ^ 32 in
    if length == 0
    then done (some m)
    else if dirent_inode m offset == 0
    then done none
    else if begins m (offset + 8) name
    then done (some (copy_in m offset (bytes m (offset + size) left)))
    else rest
