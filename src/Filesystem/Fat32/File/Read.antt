-- ===== src/Filesystem/Fat32/File/Read.antt =====
-- Reads that begin where a cluster begins.
use vk.Prelude.{
  ℕ, ◌+◌, ◌-◌, ◌*◌, ◌%◌, ◌^◌, ◌≤◌, ◌<◌, ◌≡◌, refl, sym, ap, ◌∙◌, zero, suc, true, false, List, [],
  ◌∷◌, ◌++◌, ◌==◌, ltb, leb, Bool-cases, inl, inr, ==→eq, ==→ne, All, ltb→lt, leb→le, length,
  length-append, append-nil, take, drop, take-append_le, take-append_ge, drop-append, length-drop,
  bytes, length-bytes, take-bytes, done, arith,
}
use vk.Filesystem.Drive.{ok, Drive}
use vk.Filesystem.Fat32.Table.{Table}
use vk.Filesystem.Fat32.Table.Chain.{IsChain, get_cluster_chain-IsChain}
use vk.Filesystem.Fat32.File.{Volume, cluster_size, cluster_to_lba, skip, read_loop, read_file}

-- The bytes of the clusters of a file, one cluster behind the other.
unfoldable pub content : Volume → (ℕ → ℕ) → List ℕ → List ℕ
content v m [] = []
content v m (c ∷ cs) = bytes m (512 * cluster_to_lba v c) (cluster_size v) ++ content v m cs

drop-content :
    (v : Volume) (m : ℕ → ℕ) (k : ℕ) (cs : List ℕ)
    → k ≤ length cs
    → drop (k * cluster_size v) (content v m cs) ≡ content v m (drop k cs)
unfolding content
drop-content v m zero cs h = let z : 0 * cluster_size v ≡ 0 = grind arith in rw z refl
drop-content v m (suc k) [] h = absurd (omega arith)
drop-content v m (suc k) (c ∷ cs) h =
    let e : suc k * cluster_size v ≡ cluster_size v + k * cluster_size v = grind arith in
    let run = bytes m (512 * cluster_to_lba v c) (cluster_size v) in
    let n : cluster_size v ≡ length run = sym (length-bytes m _ (cluster_size v)) in
    rw e (
      ap (λ (l : ℕ). drop (l + k * cluster_size v) (run ++ content v m cs)) n
      ∙ drop-append run (content v m cs) (k * cluster_size v)
      ∙ drop-content v m k cs (omega arith))

skip_lem :
    (size k : ℕ) (cs : List ℕ)
    → 0 < size
    → k ≤ length cs
    → skip size cs (k * size) ≡ done (drop k cs, 0)
unfolding skip
skip_lem size zero [] pos h =
    let z : 0 * size ≡ 0 = grind arith in
    let b : leb size 0 ≡ false = ground arith in rw (z, b) refl
skip_lem size zero (c ∷ cs) pos h =
    let z : 0 * size ≡ 0 = grind arith in
    let b : leb size 0 ≡ false = ground arith in rw (z, b) refl
skip_lem size (suc k) [] pos h = absurd (omega arith)
skip_lem size (suc k) (c ∷ cs) pos h =
    let e : suc k * size ≡ size + k * size = grind arith in
    let b : leb size (size + k * size) ≡ true = ground arith in
    let m : size + k * size - size ≡ k * size = omega arith in
    rw (e, b, m) (skip_lem size k cs pos (omega arith))

take-content :
    (v : Volume) (m : ℕ → ℕ) (c : ℕ) (cs : List ℕ) (count : ℕ)
    → count ≤ cluster_size v
    → take count (content v m (c ∷ cs)) ≡ bytes m (512 * cluster_to_lba v c) count
unfolding content
take-content v m c cs count le =
    let size = cluster_size v in
    let run = bytes m (512 * cluster_to_lba v c) size in
    take-append_le count run (content v m cs)
      (omega (arith, length-bytes m (512 * cluster_to_lba v c) size))
    ∙ take-bytes m (512 * cluster_to_lba v c) count size le

multiple_lt : (k n : ℕ) → k * n < n → k * n ≡ 0
multiple_lt zero n h = grind arith
multiple_lt (suc k) n h = let e : suc k * n ≡ n + k * n = grind arith in absurd (omega arith)

-- The cluster lies in the first 2 ^ 28 sectors of the drive.
abbrev pub IsInside : Volume → ℕ → Type 0
IsInside v c = 512 * cluster_to_lba v c + cluster_size v ≤ 2 ^ 37

All-drop : (v : Volume) (k : ℕ) (cs : List ℕ) → All (IsInside v) cs → All (IsInside v) (drop k cs)
All-drop v zero cs h = h
All-drop v (suc k) [] h = tt
All-drop v (suc k) (c ∷ cs) h = All-drop v k cs h.1

-- A drive that delivers, from the beginning of a sector on, the bytes `m`.
module _ {D : Type 0} (drive : Drive D) (v : Volume) (m : ℕ → ℕ) (d : D)
    (reads : (sector count : ℕ)
      → 0 < count
      → 512 * sector + count ≤ 2 ^ 37
      → drive.read d sector 0 count ≡ ok (bytes m (512 * sector) count)) where
  read_cluster :
      (c count : ℕ)
      → IsInside v c
      → 0 < count
      → count ≤ cluster_size v
      → drive.read d (cluster_to_lba v c) 0 count ≡ ok (bytes m (512 * cluster_to_lba v c) count)
  read_cluster c count inside some le =
      reads (cluster_to_lba v c) count some (omega (arith, inside, le))

  read_loop_lem :
      (rounds : ℕ) (cs : List ℕ) (count : ℕ)
      → All (IsInside v) cs
      → 0 < cluster_size v
      → length cs ≤ rounds
      → count < 2 ^ 32
      → count ≤ length (content v m cs)
      → read_loop drive v rounds d cs 0 count ≡ done (ok (take count (content v m cs)))
  unfolding read_loop content
  read_loop_lem zero [] count all pos le small h = let z : count ≡ 0 = omega arith in rw z refl
  read_loop_lem zero (c ∷ cs) count all pos le small h = absurd (omega arith)
  read_loop_lem (suc rounds) [] count all pos le small h =
      let z : count ≡ 0 = omega arith in rw z refl
  read_loop_lem (suc rounds) (c ∷ cs) count all pos le small h =
      let size = cluster_size v in
      let run = bytes m (512 * cluster_to_lba v c) size in
      let n : length run ≡ size = length-bytes m _ size in
      elim (Bool-cases (count == 0)) [
        | inl z ↦ let zero_count = ==→eq count 0 z in rw zero_count refl
        | inr some ↦ elim (Bool-cases (leb size count)) [
          | inl whole ↦
              let rest : (count - size) % 2 ^ 32 ≡ count - size = omega arith in
              let ih =
                read_loop_lem rounds cs (count - size) all.1 pos (omega arith) (omega arith)
                  (omega (arith, n, length-append run (content v m cs))) in
              let cut : count - length run ≡ count - size = omega (arith, n) in
              let split =
                take-append_ge count run (content v m cs)
                  (omega (arith, n, leb→le size count whole)) in
              rw (some, whole, read_cluster c size all.0 pos (omega arith), rest, ih)
                (ap (λ (l : List ℕ). done (ok l))
                  (ap (λ (k : ℕ). run ++ take k (content v m cs)) (sym cut) ∙ sym split))
          | inr part ↦
              let less : count ≤ size = ground (arith, part) in
              let nonzero = ==→ne count 0 some in
              rw (some, part, read_cluster c count all.0 (omega (arith, nonzero)) less)
                (ap (λ (l : List ℕ). done (ok l))
                  (append-nil _ ∙ sym (take-content v m c cs count less)))
        ]
      ]

  -- A read that begins at a multiple of the size of a cluster, of some bytes that the chain has,
  -- returns these bytes of the clusters of the chain, one cluster behind the other.
  pub read_file-reads :
      (rounds : ℕ) (t : Table) (c : ℕ) (cs : List ℕ) (k count : ℕ)
      → IsChain t (c ∷ cs)
      → All (IsInside v) (c ∷ cs)
      → 0 < count
      → length (c ∷ cs) ≤ rounds
      → 0 < cluster_size v
      → k ≤ length (c ∷ cs)
      → count < 2 ^ 32
      → count + k * cluster_size v < 2 ^ 64
      → count ≤ length (drop (k * cluster_size v) (content v m (c ∷ cs)))
      → read_file drive v rounds d t c (k * cluster_size v) count
        ≡ done (ok (take count (drop (k * cluster_size v) (content v m (c ∷ cs)))))
  unfolding read_file
  read_file-reads rounds t c cs k count chain all some le pos inside small big h =
      let size = cluster_size v in
      let wrap : (count + k * size) % 2 ^ 64 ≡ count + k * size = omega arith in
      elim (Bool-cases (ltb (count + k * size) size)) [
        | inl one ↦
            let z = multiple_lt k size (omega (arith, ltb→lt (count + k * size) size one)) in
            rw
              (
                wrap,
                one,
                z,
                read_cluster c count all.0 some (omega (arith, ltb→lt (count + k * size) size one)),
              )
              (ap (λ (l : List ℕ). done (ok l))
                (sym (
                  take-content v m c cs count (omega (arith, ltb→lt (count + k * size) size one)))))
        | inr more ↦
            let dropped = drop-content v m k (c ∷ cs) inside in
            let enough : count ≤ length (content v m (drop k (c ∷ cs))) = rw dropped at h in
            rw
              (
                wrap,
                more,
                get_cluster_chain-IsChain rounds t c cs chain le,
                skip_lem size k (c ∷ cs) pos inside,
                dropped,
              )
              (read_loop_lem (length (c ∷ cs)) (drop k (c ∷ cs)) count (All-drop v k (c ∷ cs) all)
                pos (length-drop k (c ∷ cs)) small enough)
      ]
