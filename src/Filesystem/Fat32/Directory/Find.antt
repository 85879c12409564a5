-- ===== src/Filesystem/Fat32/Directory/Find.antt =====
-- Which directories and entries the functions can handle.
use vk.Prelude.{
  ℕ, ◌+◌, ◌*◌, ◌/◌, ◌≤◌, ◌<◌, ◌≡◌, ◌≢◌, refl, zero, suc, true, false, List, ◌∷◌, ◌==◌, leb, length,
  Bool-cases, inl, inr, ne→==, le→leb, none, done, wild, arith,
}
use vk.Filesystem.Drive.{Drive}
use vk.Filesystem.Fat32.Table.{Table}
use vk.Filesystem.Fat32.Table.Chain.{IsChain, get_cluster_chain-IsChain}
use vk.Filesystem.Fat32.File.{Volume, cluster_size}
use vk.Filesystem.Fat32.Entry.{attributes, LongName, no_name}
use vk.Filesystem.Fat32.Directory.{
  Node, entry, find_cluster, read_clusters, read_dirents, update_dirent, delete_dirent,
}

lt→leb_false : (a b : ℕ) → a < b → leb b a ≡ false
lt→leb_false a b h = ground arith

-- A directory whose chain has two to 32 clusters, which are not empty, cannot be read, with as many
-- rounds as clusters, or more: the second cluster goes behind the
-- block of memory.
pub read_dirents-overrun :
    {D : Type 0} (drive : Drive D) (v : Volume) (garbage : ℕ → ℕ) (d : D) (rounds : ℕ) (t : Table)
    (c e : ℕ) (cs : List ℕ)
    → IsChain t (c ∷ e ∷ cs)
    → length (c ∷ e ∷ cs) ≤ rounds
    → length (c ∷ e ∷ cs) ≤ 32
    → 0 < cluster_size v
    → read_dirents drive v garbage rounds d t c ≡ wild
unfolding read_dirents read_clusters
read_dirents-overrun drive v garbage d rounds t c e cs chain le few pos =
    let size = cluster_size v in
    let n = length (c ∷ e ∷ cs) in
    let first : leb (32 * size * 0 + size) (n * size) ≡ true =
      le→leb (32 * size * 0 + size) (n * size) (grind arith) in
    let second : leb (32 * size * (0 + 1) + size) (n * size) ≡ false =
      lt→leb_false (n * size) (32 * size * (0 + 1) + size) (grind arith) in
    rw (get_cluster_chain-IsChain rounds t c (e ∷ cs) chain le, first, second) refl

find_cluster-short :
    (rounds i : ℕ) (name : LongName) (dirents : ℕ → ℕ) (cluster : ℕ)
    → name.size ≡ 0
    → ((k : ℕ) → attributes (entry dirents k) ≢ 0x0F)
    → find_cluster rounds i name dirents cluster ≡ done none
unfolding find_cluster
find_cluster-short zero i name dirents cluster z short = refl
find_cluster-short (suc rounds) i name dirents cluster z short =
    let a = ne→== (attributes (entry dirents i)) 0x0F (short i) in
    elim (Bool-cases (entry dirents i 0 == 0)) [
      | inl end ↦ rw end refl
      | inr more ↦ elim (Bool-cases (entry dirents i 0 == 0xE5)) [
        | inl deleted ↦
            rw (more, deleted) (find_cluster-short rounds (i + 1) name dirents cluster z short)
        | inr used ↦
            rw (more, used, a, z)
              (find_cluster-short rounds (i + 1) (record name { size = 0 }) dirents cluster refl
                short)
      ]
    ]

-- In a directory that can be read and has no long names `update_dirent` finds no file: it returns ERROR_FILE_NOT_FOUND
-- and leaves the drive and the node as they are; so does `delete_dirent`.
pub update_dirent-short :
    {D : Type 0} (drive : Drive D) (v : Volume) (garbage : ℕ → ℕ) (d : D) (rounds now : ℕ)
    (t : Table) (file : Node) (clusters : List ℕ) (dirents : ℕ → ℕ)
    → read_dirents drive v garbage rounds d t file.dir_cluster ≡ done (clusters, dirents)
    → ((k : ℕ) → attributes (entry dirents k) ≢ 0x0F)
    → (update_dirent drive v garbage rounds now d t file ≡ done (10, d, file))
      × (delete_dirent drive v garbage rounds d t file.dir_cluster file.cluster ≡ done (10, d))
unfolding update_dirent delete_dirent
update_dirent-short drive v garbage d rounds now t file clusters dirents read short =
    let none_found =
      find_cluster-short (length clusters * cluster_size v / 32) 0 (no_name garbage) dirents
        file.cluster refl short in
    (rw (read, none_found) refl, rw (read, none_found) refl)
