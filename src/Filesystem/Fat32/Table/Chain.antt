-- ===== src/Filesystem/Fat32/Table/Chain.antt =====
-- Chains, and what `get_cluster_chain` makes of them.
use vk.Prelude.{
  ℕ, ◌≤◌, ◌<◌, ◌≡◌, ◌≢◌, refl, zero, suc, true, false, List, [], ◌∷◌, lt→ltb, poke, length, All,
  done, arith,
}
use vk.Filesystem.Fat32.Table.{Table, next, with_entry, is_last, get_cluster_chain}

-- The clusters form a chain: each points to the one behind it, and the last holds a mark of the end.
abbrev pub IsChain : Table → List ℕ → Type 0
IsChain t [] = ⊥
IsChain t (c ∷ []) = (c < t.size) × (0x0FFFFFF8 ≤ next t c)
IsChain t (c ∷ d ∷ ds) =
    (c < t.size) × (next t c ≡ d) × (0 < d) × (d < 0x0FFFFFF8) × IsChain t (d ∷ ds)

-- With as many rounds as the chain has clusters, or more, `get_cluster_chain` of the first cluster
-- of a chain ends and returns the chain.
pub get_cluster_chain-IsChain :
    (rounds : ℕ) (t : Table) (c : ℕ) (cs : List ℕ)
    → IsChain t (c ∷ cs)
    → length (c ∷ cs) ≤ rounds
    → get_cluster_chain rounds t c ≡ done (c ∷ cs)
unfolding get_cluster_chain
get_cluster_chain-IsChain zero t c cs h le = absurd (omega arith)
get_cluster_chain-IsChain (suc rounds) t c [] h le =
    let inside = lt→ltb c t.size h.0 in
    let stop : is_last (next t c) ≡ true = ground (arith, h.1) in rw (inside, stop) refl
get_cluster_chain-IsChain (suc rounds) t c (d ∷ ds) h le =
    let inside = lt→ltb c t.size h.0 in
    let go : is_last d ≡ false = ground (arith, h.2, h.3) in
    let ih = get_cluster_chain-IsChain rounds t d ds h.4 (omega arith) in
    rw (inside, h.1, go, ih) refl

-- Writing elsewhere keeps a chain.
pub IsChain-write :
    (t : Table) (q v : ℕ) (cs : List ℕ)
    → All (λ c. c ≢ q) cs
    → IsChain t cs
    → IsChain (with_entry t q v) cs
IsChain-write t q v [] other h = h
IsChain-write t q v (c ∷ []) other h =
    let e : poke t.entry q v c ≡ t.entry c = ground (arith, other.0) in (h.0, rw e h.1)
IsChain-write t q v (c ∷ d ∷ ds) other h =
    let e : poke t.entry q v c ≡ t.entry c = ground (arith, other.0) in
    (h.0, rw e h.1, h.2, h.3, IsChain-write t q v (d ∷ ds) other.1 h.4)

-- No cluster of a chain is free.
pub IsChain-taken :
    (t : Table) (cs : List ℕ) → IsChain t cs → All (λ c. (c < t.size) × (next t c ≢ 0)) cs
IsChain-taken t [] h = tt
IsChain-taken t (c ∷ []) h = ((h.0, omega (arith, h.1)), tt)
IsChain-taken t (c ∷ d ∷ ds) h = ((h.0, omega (arith, h.1, h.2)), IsChain-taken t (d ∷ ds) h.4)
