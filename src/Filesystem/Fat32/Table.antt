-- ===== src/Filesystem/Fat32/Table.antt =====
-- The allocation table in memory, with its chains of clusters. An access behind its end is `wild`.
-- The warnings that the functions print are not modelled.
pub mod Chain
pub mod Allocate
pub mod Count
pub mod Free
pub mod RoundTrip
mod Tests
use vk.Prelude.{
  ℕ, ◌+◌, ◌-◌, ◌^◌, ◌%◌, zero, suc, Bool, List, [], ◌∷◌, if◌then◌else◌, ◌==◌, ltb, leb, ◌||◌, poke,
  Outcome, done, wild, no_fuel, ◌>>=◌,
}

pub record Table : Type 0 where
  pub entry : ℕ → ℕ
  pub size : ℕ

-- `fat_table[cluster] & 0x0FFFFFFF`
abbrev pub next : Table → ℕ → ℕ
next t c = t.entry c % 2 ^ 28

pub read_entry : Table → ℕ → Outcome ℕ
read_entry t c = if ltb c t.size then done (next t c) else wild

abbrev pub with_entry : Table → ℕ → ℕ → Table
with_entry t c v = record t { entry = poke t.entry c v }

pub write_entry : Table → ℕ → ℕ → Outcome Table
write_entry t c v = if ltb c t.size then done (with_entry t c v) else wild

-- The end of a chain, or a free cluster.
abbrev pub is_last : ℕ → Bool
is_last cchain = (cchain == 0) || leb 0x0FFFFFF8 cchain

unfoldable pub get_cluster_chain : ℕ → Table → ℕ → Outcome (List ℕ)
unfolding read_entry
get_cluster_chain zero t cluster = no_fuel
get_cluster_chain (suc rounds) t cluster = read_entry t cluster >>= λ cchain.
    let rest = get_cluster_chain rounds t cchain in
    if is_last cchain then done (cluster ∷ []) else rest >>= λ cs. done (cluster ∷ cs)

-- The loop of `free_cluster_chain`, with the number behind which it ends.
pub free_loop : ℕ → Table → ℕ → Outcome (ℕ × Table)
unfolding read_entry write_entry
free_loop zero t cluster = no_fuel
free_loop (suc rounds) t cluster = read_entry t cluster >>= λ cchain.
    write_entry t cluster 0 >>= λ t'.
    let rest = free_loop rounds t' cchain in if is_last cchain then done (cchain, t') else rest

-- Up to the call of `fat32fs_write_fat`, which is left out.
unfoldable pub free_cluster_chain : ℕ → Table → ℕ → Outcome Table
unfolding free_loop
free_cluster_chain rounds t fcluster =
    free_loop rounds t fcluster >>= λ (cluster, t'). write_entry t' cluster 0

-- The first free cluster from `c` on.
pub find_free : ℕ → Table → ℕ → Outcome ℕ
unfolding read_entry
find_free zero t c = no_fuel
find_free (suc rounds) t c =
    read_entry t c >>= λ v. let rest = find_free rounds t (c + 1) in if v == 0 then done c else rest

-- The outer loop of `gm_free_clusters`.
pub gm_loop : ℕ → Table → ℕ → ℕ → Outcome (ℕ × Table)
unfolding find_free write_entry
gm_loop zero t active_cluster last_free_cluster = done (last_free_cluster, t)
gm_loop (suc nbr) t active_cluster last_free_cluster =
    find_free (t.size + 1) t active_cluster >>= λ c.
    write_entry t c (if last_free_cluster == 0 then 0x0FFFFFFF else last_free_cluster) >>= λ t'.
    gm_loop nbr t' (c + 1) c

pub gm_free_clusters : ℕ → Table → Outcome (ℕ × Table)
unfolding gm_loop
gm_free_clusters nbr t = gm_loop nbr t 0 0
