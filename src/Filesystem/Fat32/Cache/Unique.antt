-- ===== src/Filesystem/Fat32/Cache/Unique.antt =====
-- There is one node for each cluster.
use vk.Prelude.{
  u16_at, ℕ, zero, suc, ◌+◌, ◌-◌, ◌*◌, if◌then◌else◌, ◌/◌, ◌%◌, ◌^◌, ◌<◌, ltb, ltb→lt, ◌≡◌, ◌≢◌,
  refl, sym, ap, ◌∙◌, false, List, [], ◌∷◌, ◌++◌, ◌==◌, Bool-cases, inl, inr, ==→eq, ==→ne, ==_refl,
  All, Option, none, some, done, arith,
}
use vk.Time.Date.{year_loop, convert_to_std_time}
use vk.Filesystem.Fat32.Entry.{
  attributes, file_cluster, file_size, fat_attr_directory, fat_attr_hidden,
}
use vk.Filesystem.Fat32.Directory.{Node}
use vk.Filesystem.Fat32.Cache.{find_node, time_of, parse_node, normalize_found, normalize_cache}

-- No two nodes of the list have the same cluster.
abbrev pub IsUnique : List Node → Type 0
IsUnique [] = Unit
IsUnique (n ∷ ns) = All (λ (k : Node). k.cluster ≢ n.cluster) ns × IsUnique ns

-- What the search comes to.
abbrev Finds : List Node → ℕ → Option Node → Type 0
Finds ns cluster (some n) = n.cluster ≡ cluster
Finds ns cluster none = All (λ (k : Node). k.cluster ≢ cluster) ns

find_node-Finds : (ns : List Node) (cluster : ℕ) → Finds ns cluster (find_node ns cluster)
unfolding find_node
find_node-Finds [] cluster = tt
find_node-Finds (n ∷ ns) cluster = elim (Bool-cases (n.cluster == cluster)) [
  | inl same ↦ rw same (==→eq n.cluster cluster same)
  | inr other ↦ rw other (
      Finds-cons n ns cluster (find_node ns cluster) (==→ne n.cluster cluster other)
        (find_node-Finds ns cluster))
]
  where
    Finds-cons :
        (n : Node) (ns : List Node) (cluster : ℕ) (r : Option Node)
        → n.cluster ≢ cluster
        → Finds ns cluster r
        → Finds (n ∷ ns) cluster r
    Finds-cons n ns cluster none ne f = (ne, f)
    Finds-cons n ns cluster (some k) ne f = f

find_node-snoc :
    (ns : List Node) (n : Node)
    → All (λ (k : Node). k.cluster ≢ n.cluster) ns
    → find_node (ns ++ (n ∷ [])) n.cluster ≡ some n
unfolding find_node
find_node-snoc [] n h = rw (==_refl n.cluster) refl
find_node-snoc (k ∷ ns) n h =
    let b : (k.cluster == n.cluster) ≡ false = ground (arith, h.0) in rw b (find_node-snoc ns n h.1)

IsUnique-snoc :
    (ns : List Node) (n : Node)
    → IsUnique ns
    → All (λ (k : Node). k.cluster ≢ n.cluster) ns
    → IsUnique (ns ++ (n ∷ []))
IsUnique-snoc [] n u h = (tt, tt)
IsUnique-snoc (k ∷ ns) n u h = (All-snoc ns u.0 (λ e. h.0 (sym e)), IsUnique-snoc ns n u.1 h.1)
  where
    All-snoc :
        (ms : List Node)
        → All (λ (m : Node). m.cluster ≢ k.cluster) ms
        → n.cluster ≢ k.cluster
        → All (λ (m : Node). m.cluster ≢ k.cluster) (ms ++ (n ∷ []))
    All-snoc [] a ne = (ne, tt)
    All-snoc (m ∷ ms) a ne = (a.0, All-snoc ms a.1 ne)

year_loop-done :
    (rounds y sum : ℕ)
    → 0 < rounds
    → y < 1969 + rounds
    → (r : ℕ) × (year_loop rounds y sum ≡ done r)
unfolding year_loop
year_loop-done zero y sum pos lt = absurd (omega (arith, pos))
year_loop-done (suc rounds) y sum pos lt = elim (Bool-cases (ltb 1969 y)) [
  | inl more ↦
      let gt = ltb→lt 1969 y more in
      let day =
        if y % 4 == 0
        then (if y % 100 == 0 then (if y % 400 == 0 then 86400 else 0) else 86400)
        else 0 in
      let (r, e) =
        year_loop-done rounds (y - 1) ((sum + 365 * 86400 + day) % 2 ^ 32) (omega (arith, lt, gt))
          (omega (arith, lt, gt)) in
      (r, rw more e)
  | inr stop ↦ (sum, rw stop refl)
]

-- Every time and every date of an entry stands for a time.
time_of-done : (time date : ℕ) → (r : ℕ) × (time_of time date ≡ done r)
unfolding convert_to_std_time
time_of-done time date =
    year_loop-done 256 (1900 + (date / 2 ^ 9 + 80) % 256 - 1) _ (omega arith) (omega arith)

parse_node-done :
    (e : ℕ → ℕ) (dir_cluster : ℕ)
    → (n : Node) × (parse_node e dir_cluster ≡ done n) × (n.cluster ≡ file_cluster e)
unfolding parse_node
parse_node-done e dir_cluster =
    let (created, e1) = time_of-done (u16_at e 14) (u16_at e 16) in
    let (accessed, e2) = time_of-done 0 (u16_at e 18) in
    let (modified, e3) = time_of-done (u16_at e 22) (u16_at e 24) in
    (
      record {
        file_length = file_size e;
        is_dir = fat_attr_directory (attributes e);
        is_hidden = fat_attr_hidden (attributes e);
        hard_links = 1;
        creation_time = created;
        last_access_time = accessed;
        last_modification_time = modified;
        cluster = file_cluster e;
        dir_cluster = dir_cluster;
      },
      rw (e1, e2, e3) refl,
      refl,
    )

-- What `normalize_cache` returns, by what the search has found.
abbrev pub Normalized : (ℕ → ℕ) → List Node → Node → List Node → Type 0
Normalized e cache n cache' =
    (n.cluster ≡ file_cluster e)
    × IsUnique cache'
    × (find_node cache' (file_cluster e) ≡ some n)
    × ((k : Node) → find_node cache (file_cluster e) ≡ some k → (n ≡ k) × (cache' ≡ cache))
    × (find_node cache (file_cluster e) ≡ none → cache' ≡ cache ++ (n ∷ []))

appended :
    (e : ℕ → ℕ) (cache : List Node) (n : Node)
    → IsUnique cache
    → find_node cache (file_cluster e) ≡ none
    → All (λ (k : Node). k.cluster ≢ file_cluster e) cache
    → n.cluster ≡ file_cluster e
    → Normalized e cache n (cache ++ (n ∷ []))
appended e cache n u same f c =
    let f' : All (λ (k : Node). k.cluster ≢ n.cluster) cache = rw c f in
    (
      c,
      IsUnique-snoc cache n u f',
      ap (find_node (cache ++ (n ∷ []))) (sym c) ∙ find_node-snoc cache n f',
      λ k found. absurd (cc (found, same)),
      λ _. refl,
    )

normalize_found-Normalized :
    (e : ℕ → ℕ) (dir_cluster : ℕ) (cache : List Node) (r : Option Node)
    → IsUnique cache
    → find_node cache (file_cluster e) ≡ r
    → Finds cache (file_cluster e) r
    → (n : Node) × (cache' : List Node) × (normalize_found e dir_cluster cache r ≡ done (n, cache'))
      × Normalized e cache n cache'
normalize_found-Normalized e dir_cluster cache (some k) u same f = (
  k,
  cache,
  refl,
  (f, u, same, λ j found. (cc (found, same), refl), λ no. absurd (cc (no, same))),
)
normalize_found-Normalized e dir_cluster cache none u same f =
    let (n, parsed, c) = parse_node-done e dir_cluster in
    (n, cache ++ (n ∷ []), rw parsed refl, appended e cache n u same f c)

-- Where no two nodes of the list have the same cluster, `normalize_cache` of any entry returns a node
-- of the entry's cluster and a list in which no two nodes have the same cluster: if the list had a
-- node of that cluster, it is that one and the list stays as it is, else it is added at the end. A
-- second call, whatever the entry of that cluster then holds, returns the same node and leaves the
-- list as it is.
pub normalize_cache-IsUnique :
    (e : ℕ → ℕ) (dir_cluster : ℕ) (cache : List Node)
    → IsUnique cache
    → (n : Node) × (cache' : List Node) × (normalize_cache e dir_cluster cache ≡ done (n, cache'))
      × Normalized e cache n cache'
      × ((e' : ℕ → ℕ) (dir' : ℕ)
          → file_cluster e' ≡ file_cluster e
          → normalize_cache e' dir' cache' ≡ done (n, cache'))
unfolding normalize_cache
normalize_cache-IsUnique e dir_cluster cache u =
    let (n, cache', returns, norm) =
      normalize_found-Normalized e dir_cluster cache (find_node cache (file_cluster e)) u refl
        (find_node-Finds cache (file_cluster e)) in
    (n, cache', returns, norm, λ e' dir' same. rw (same, norm.2) refl)
