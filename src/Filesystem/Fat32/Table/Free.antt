-- ===== src/Filesystem/Fat32/Table/Free.antt =====
-- What `free_cluster_chain` makes of the table.
use vk.Prelude.{
  ℕ, ◌≤◌, ◌≡◌, ◌≢◌, refl, ◌∙◌, zero, suc, true, false, List, [], ◌∷◌, ltb, lt→ltb, poke, length,
  All, done, wild, arith,
}
use vk.Filesystem.Fat32.Table.{
  Table, next, with_entry, write_entry, is_last, free_loop, free_cluster_chain,
}
use vk.Filesystem.Fat32.Table.Chain.{IsChain, IsChain-write}
use vk.Filesystem.Fat32.Table.Allocate.{IsTable}

abbrev pub IsDistinct : List ℕ → Type 0
IsDistinct [] = Unit
IsDistinct (c ∷ cs) = All (λ d. d ≢ c) cs × IsDistinct cs

-- The entries of the clusters are 0 and the others are as they were.
pub record Freed (t t' : Table) (cs : List ℕ) : Type 0 where
  pub free : All (λ c. t'.entry c ≡ 0) cs
  pub kept : (q : ℕ) → All (λ c. c ≢ q) cs → t'.entry q ≡ t.entry q
  pub same_size : t'.size ≡ t.size

Freed-cons :
    (t t' : Table) (c : ℕ) (cs : List ℕ)
    → All (λ d. d ≢ c) cs
    → Freed (with_entry t c 0) t' cs
    → Freed t t' (c ∷ cs)
Freed-cons t t' c cs other f =
    let zeroed : poke t.entry c 0 c ≡ 0 = ground arith in
    record {
      free = (f.kept c other ∙ zeroed, f.free);
      kept = λ q ne.
          let same : poke t.entry c 0 q ≡ t.entry q = ground (arith, ne.0) in f.kept q ne.1 ∙ same;
      same_size = f.same_size;
    }

free_loop-Freed :
    (rounds : ℕ) (t : Table) (c : ℕ) (cs : List ℕ)
    → IsChain t (c ∷ cs)
    → IsDistinct (c ∷ cs)
    → length (c ∷ cs) ≤ rounds
    → (m : ℕ) × (t' : Table) × (free_loop rounds t c ≡ done (m, t'))
      × Freed t t' (c ∷ cs)
      × (0x0FFFFFF8 ≤ m)
unfolding free_loop
free_loop-Freed zero t c cs h distinct le = absurd (omega arith)
free_loop-Freed (suc rounds) t c [] h distinct le =
    let inside = lt→ltb c t.size h.0 in
    let stop : is_last (next t c) ≡ true = ground (arith, h.1) in
    (
      next t c,
      with_entry t c 0,
      rw (inside, stop) refl,
      Freed-cons t (with_entry t c 0) c [] tt
          (record { free = tt; kept = λ q ne. refl; same_size = refl }),
      h.1,
    )
free_loop-Freed (suc rounds) t c (d ∷ ds) h distinct le =
    let inside = lt→ltb c t.size h.0 in
    let go : is_last d ≡ false = ground (arith, h.2, h.3) in
    let (m, t', e, f, big) =
      free_loop-Freed rounds (with_entry t c 0) d ds (IsChain-write t c 0 (d ∷ ds) distinct.0 h.4)
        distinct.1 (omega arith) in
    (m, t', rw (inside, h.1, go) e, Freed-cons t t' c (d ∷ ds) distinct.0 f, big)

-- In a table whose entry 0 is not free and whose numbers are no marks, and with as many rounds as a
-- chain of different clusters has, or more, the loop of `free_cluster_chain` frees all clusters of
-- the chain and changes no other entry; but then the function writes to the entry whose number is
-- the mark of the end, which lies behind the end of the table.
pub free_cluster_chain-overrun :
    (rounds : ℕ) (t : Table) (c : ℕ) (cs : List ℕ)
    → IsTable t
    → IsChain t (c ∷ cs)
    → IsDistinct (c ∷ cs)
    → length (c ∷ cs) ≤ rounds
    → (free_cluster_chain rounds t c ≡ wild)
      × (m : ℕ) × (t' : Table) × (free_loop rounds t c ≡ done (m, t'))
      × Freed t t' (c ∷ cs)
      × (t'.size ≤ m)
unfolding free_cluster_chain write_entry
free_cluster_chain-overrun rounds t c cs v h distinct le =
    let (m, t', e, f, big) = free_loop-Freed rounds t c cs h distinct le in
    let out : ltb m t'.size ≡ false = ground (arith, f.same_size, v.small) in
    (rw (e, out) refl, m, t', e, f, omega (arith, f.same_size, v.small))
