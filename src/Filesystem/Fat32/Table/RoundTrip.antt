-- ===== src/Filesystem/Fat32/Table/RoundTrip.antt =====
-- Chains that are allocated are read back, and those that were there stay.
use vk.Prelude.{
  ℕ, ◌≤◌, ◌<◌, ◌≡◌, ◌≢◌, refl, sym, ap, subst, ◌∙◌, suc, List, [], ◌∷◌, ◌++◌, append-nil, length,
  All, Outcome, done, fatal, wild, no_fuel, arith,
}
use vk.Filesystem.Fat32.Table.{Table, next, gm_free_clusters, get_cluster_chain}
use vk.Filesystem.Fat32.Table.Chain.{IsChain, get_cluster_chain-IsChain}
use vk.Filesystem.Fat32.Table.Count.{count_free}
use vk.Filesystem.Fat32.Table.Allocate.{
  IsTable, IsBuilt, Grown, Allocates, gm_free_clusters-Allocates,
}

IsChain-kept :
    (t t' : Table) (cs : List ℕ)
    → ((q : ℕ) → next t q ≢ 0 → t'.entry q ≡ t.entry q)
    → t'.size ≡ t.size
    → IsChain t cs
    → IsChain t' cs
IsChain-kept t t' [] kept size h = h
IsChain-kept t t' (c ∷ []) kept size h =
    let e = kept c (omega (arith, h.1)) in (omega (arith, h.0), rw e h.1)
IsChain-kept t t' (c ∷ d ∷ ds) kept size h =
    let e = kept c (omega (arith, h.1, h.2)) in
    (omega (arith, h.0), rw e h.1, h.2, h.3, IsChain-kept t t' (d ∷ ds) kept size h.4)

got_chain :
    (t t' : Table) (nbr c : ℕ)
    → Grown t t' (suc nbr) 0 [] c
    → (cs : List ℕ) × (get_cluster_chain (suc nbr) t' c ≡ done cs)
      × (length cs ≡ suc nbr)
      × All (λ q. next t q ≡ 0) cs
got_chain t t' nbr c g = got g.new g.amount g.built g.fresh
  where
    frees :
        (cs : List ℕ)
        → All (λ q. (0 ≤ q) × (q < t.size) × (next t q ≡ 0)) cs
        → All (λ q. next t q ≡ 0) cs
    frees [] h = tt
    frees (x ∷ xs) h = (h.0.2, frees xs h.1)

    got :
        (new : List ℕ)
        → length new ≡ suc nbr
        → IsBuilt t' t.size c (new ++ [])
        → All (λ q. (0 ≤ q) × (q < t.size) × (next t q ≡ 0)) new
        → (cs : List ℕ) × (get_cluster_chain (suc nbr) t' c ≡ done cs)
          × (length cs ≡ suc nbr)
          × All (λ q. next t q ≡ 0) cs
    got [] n b f = absurd (omega (arith, n))
    got (x ∷ xs) n b f =
        let nil : xs ++ [] ≡ xs = append-nil xs in
        let chain : IsChain t' (x ∷ xs) = subst (λ (l : List ℕ). IsChain t' (x ∷ l)) nil b.2 in
        (
          x ∷ xs,
          ap (get_cluster_chain (suc nbr) t') b.0
              ∙ get_cluster_chain-IsChain (suc nbr) t' x xs chain (omega (arith, n)),
          n,
          frees (x ∷ xs) f,
        )

-- In a table whose entry 0 is not free and whose numbers are no marks, of which as many clusters, one
-- or more, are free as are asked for, the chain that `gm_free_clusters` returns is read back by
-- `get_cluster_chain`: it has as many clusters as were asked for, and all of them were free. Every
-- chain that was there before is still read as it was.
pub get_cluster_chain-gm_free_clusters :
    (nbr : ℕ) (t : Table)
    → IsTable t
    → suc nbr ≤ count_free t 0 t.size
    → (c : ℕ) × (t' : Table) × (gm_free_clusters (suc nbr) t ≡ done (c, t'))
      × ((cs : List ℕ) × (get_cluster_chain (suc nbr) t' c ≡ done cs)
          × (length cs ≡ suc nbr)
          × All (λ q. next t q ≡ 0) cs)
      × ((rounds d : ℕ) (ds : List ℕ)
          → IsChain t (d ∷ ds)
          → length (d ∷ ds) ≤ rounds
          → get_cluster_chain rounds t' d ≡ get_cluster_chain rounds t d)
get_cluster_chain-gm_free_clusters nbr t v enough =
    got (gm_free_clusters (suc nbr) t) refl (gm_free_clusters-Allocates (suc nbr) t v)
  where
    got :
        (r : Outcome (ℕ × Table))
        → gm_free_clusters (suc nbr) t ≡ r
        → Allocates t (suc nbr) 0 t.size [] r
        → (c : ℕ) × (t' : Table) × (gm_free_clusters (suc nbr) t ≡ done (c, t'))
          × ((cs : List ℕ) × (get_cluster_chain (suc nbr) t' c ≡ done cs)
              × (length cs ≡ suc nbr)
              × All (λ q. next t q ≡ 0) cs)
          × ((rounds d : ℕ) (ds : List ℕ)
              → IsChain t (d ∷ ds)
              → length (d ∷ ds) ≤ rounds
              → get_cluster_chain rounds t' d ≡ get_cluster_chain rounds t d)
    got (done (c, t')) e (_, g) = (
      c,
      t',
      e,
      got_chain t t' nbr c g,
      λ rounds d ds h le.
          get_cluster_chain-IsChain rounds t' d ds (IsChain-kept t t' (d ∷ ds) g.kept g.same_size h)
            le
          ∙ sym (get_cluster_chain-IsChain rounds t d ds h le),
    )
    got wild e few = absurd (omega (arith, few, enough))
    got (fatal x) e f = elim f [ ]
    got no_fuel e f = elim f [ ]
