-- ===== src/Filesystem/Fat32/Write.antt =====
-- `write_file`, but for the entry of the directory, which it updates when the file grows. The
-- errors of the drive are ignored, as in the code.
use vk.Prelude.{
  ℕ, ◌+◌, ◌-◌, ◌^◌, ◌%◌, zero, suc, List, [], ◌∷◌, ◌++◌, if◌then◌else◌, ◌==◌, ltb, take, drop,
  length, Outcome, done, wild, no_fuel, ◌>>=◌,
}
use vk.Filesystem.Drive.{Drive}
use vk.Filesystem.Fat32.Table.{Table, get_cluster_chain, gm_free_clusters, write_entry}
use vk.Filesystem.Fat32.File.{Volume, cluster_size, cluster_to_lba}
use vk.Filesystem.Fat32.Store.{write_fat}

-- `while(x > size) {x -= size; n++;}`: what is left of `x`, and `n`.
pub count_off : ℕ → ℕ → ℕ → ℕ → Outcome (ℕ × ℕ)
count_off zero size x n = no_fuel
count_off (suc rounds) size x n =
    let rest = count_off rounds size (x - size) (n + 1) in if ltb size x then rest else done (x, n)

-- The last of the clusters.
pub last_of : List ℕ → Outcome ℕ
last_of [] = wild
last_of (c ∷ []) = done c
last_of (c ∷ d ∷ ds) = last_of (d ∷ ds)

module _ {D : Type 0} (drive : Drive D) (v : Volume) where
  -- The drive, the table and the clusters with the first of the new ones, if the last to be written
  -- lies behind the chain.
  pub expand : D → Table → List ℕ → ℕ → ℕ → Outcome (D × Table × List ℕ)
  unfolding last_of
  expand d t clusters first last =
      let needed = if last - first == 0 then 1 else last - first in
      if ltb (length clusters) last
      then (gm_free_clusters needed t >>= λ (fnc, t'). last_of clusters >>= λ c.
          write_entry t' c fnc >>= λ t''.
          done ((write_fat drive v d t'').1, t'', clusters ++ (fnc ∷ [])))
      else done (d, t, clusters)

  -- The last loop, with `left` clusters behind the next; `buffer` is not moved on.
  pub write_clusters : ℕ → List ℕ → ℕ → ℕ → List ℕ → D → Outcome D
  write_clusters left [] offset count buffer d = wild
  write_clusters zero (c ∷ cs) offset count buffer d =
      done (drive.write d (cluster_to_lba v c) (offset % 2 ^ 32) (take count buffer)).1
  write_clusters (suc left) (c ∷ cs) offset count buffer d =
      write_clusters left cs 0 count buffer
        (drive.write d (cluster_to_lba v c) (offset % 2 ^ 32) (take (cluster_size v) buffer)).1

  -- Of the whole buffer, to a file of the given length: the drive, the table, and the new length.
  unfoldable pub write_file : ℕ → D → Table → ℕ → ℕ → ℕ → List ℕ → Outcome (D × Table × ℕ)
  unfolding count_off expand write_clusters
  write_file rounds d t cluster file_length offset buffer =
      get_cluster_chain rounds t cluster >>= λ clusters.
      count_off rounds (cluster_size v) offset 0 >>= λ (offset', first).
      count_off rounds (cluster_size v) (length buffer) first >>= λ (count, last).
      expand d t clusters first last >>= λ (d', t', clusters').
      write_clusters (last - first) (drop first clusters') offset' count buffer d' >>= λ d''. done (
        d'',
        t',
        if ltb file_length (length buffer + offset) then length buffer + offset else file_length,
      )
