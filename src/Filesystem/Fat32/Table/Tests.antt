-- ===== src/Filesystem/Fat32/Table/Tests.antt =====
-- Allocation of clusters and their release, run on a table of eight entries.
use vk.Prelude.{ℕ, ◌≤◌, ◌≡◌, refl, List, [], ◌∷◌, length, All, done, wild, arith}
use vk.Filesystem.Fat32.Table.{
  Table, next, get_cluster_chain, free_loop, free_cluster_chain, gm_free_clusters,
}
use vk.Filesystem.Fat32.Table.Chain.{IsChain}
use vk.Filesystem.Fat32.Table.Count.{count_free}
use vk.Filesystem.Fat32.Table.Allocate.{Allocates, gm_free_clusters-Allocates}
use vk.Filesystem.Fat32.Table.Free.{Freed, free_cluster_chain-overrun}
use vk.Filesystem.Fat32.Table.RoundTrip.{get_cluster_chain-gm_free_clusters}
use vk.Filesystem.Fat32.Example.{eight, eight-IsTable, eight-IsChain}

eight-full : gm_free_clusters 4 eight ≡ wild
unfolding gm_free_clusters
eight-full = refl

eight-free : 3 ≤ count_free eight 0 8
unfolding count_free
eight-free = omega arith

gm_free_clusters-Allocates_example : Allocates eight 2 0 8 [] (gm_free_clusters 2 eight)
gm_free_clusters-Allocates_example = gm_free_clusters-Allocates 2 eight eight-IsTable

get_cluster_chain-gm_free_clusters_example :
    (c : ℕ) × (t' : Table) × (gm_free_clusters 3 eight ≡ done (c, t'))
    × ((cs : List ℕ) × (get_cluster_chain 3 t' c ≡ done cs)
        × (length cs ≡ 3)
        × All (λ q. next eight q ≡ 0) cs)
    × ((rounds d : ℕ) (ds : List ℕ)
        → IsChain eight (d ∷ ds)
        → length (d ∷ ds) ≤ rounds
        → get_cluster_chain rounds t' d ≡ get_cluster_chain rounds eight d)
get_cluster_chain-gm_free_clusters_example =
    get_cluster_chain-gm_free_clusters 2 eight eight-IsTable eight-free

free_cluster_chain-overrun_example :
    (free_cluster_chain 2 eight 2 ≡ wild)
    × (m : ℕ) × (t' : Table) × (free_loop 2 eight 2 ≡ done (m, t'))
    × Freed eight t' (2 ∷ 5 ∷ [])
    × (t'.size ≤ m)
free_cluster_chain-overrun_example =
    free_cluster_chain-overrun 2 eight 2 (5 ∷ []) eight-IsTable eight-IsChain
      ((omega arith, tt), (tt, tt)) (omega arith)
