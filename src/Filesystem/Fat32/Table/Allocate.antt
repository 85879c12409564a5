-- ===== src/Filesystem/Fat32/Table/Allocate.antt =====
-- What `gm_free_clusters` makes of the table.
use vk.Prelude.{
  ℕ, ◌+◌, ◌%◌, ◌^◌, ◌≤◌, ◌<◌, ◌≡◌, ◌≢◌, refl, sym, ap, subst, ◌∙◌, zero, suc, List, [], ◌∷◌, ◌++◌,
  append_assoc, if◌then◌else◌, ◌==◌, ltb, lt→ltb, ltb→lt, Bool-cases, inl, inr, poke, length,
  length-append, All, Outcome, done, fatal, wild, no_fuel, ◌>>=◌, arith,
}
use vk.Filesystem.Fat32.Table.{
  Table, next, with_entry, write_entry, find_free, gm_loop, gm_free_clusters,
}
use vk.Filesystem.Fat32.Table.Chain.{IsChain, IsChain-write}
use vk.Filesystem.Fat32.Table.Count.{count_free, count_free-write, Finds, find_free-Finds}

-- The numbers of clusters are below the marks of the end of a chain, and entry 0 is not free.
pub record IsTable (t : Table) : Type 0 where
  pub small : t.size ≤ 0x0FFFFFF7
  pub reserved : next t 0 ≢ 0

-- The chain that the loop has so far, the last cluster found first; none if `last` is 0.
abbrev pub IsBuilt : Table → ℕ → ℕ → List ℕ → Type 0
IsBuilt t a last [] = last ≡ 0
IsBuilt t a last (c ∷ cs) = (last ≡ c) × All (λ x. (0 < x) × (x < a)) (c ∷ cs) × IsChain t (c ∷ cs)

-- From the table `t` on, the first clusters that were free, from `a` on, have become the front of the
-- chain: one that is free still and is none of them lies behind all of them.
pub record Grown (t t' : Table) (n a : ℕ) (cs : List ℕ) (last : ℕ) : Type 0 where
  pub new : List ℕ
  pub amount : length new ≡ n
  pub built : IsBuilt t' t.size last (new ++ cs)
  pub fresh : All (λ q. (a ≤ q) × (q < t.size) × (next t q ≡ 0)) new
  pub others : (q : ℕ) → All (λ x. x ≢ q) new → t'.entry q ≡ t.entry q
  pub first : (q : ℕ) → a ≤ q → next t q ≡ 0 → All (λ x. x ≢ q) new → All (λ x. x < q) new
  pub kept : (q : ℕ) → next t q ≢ 0 → t'.entry q ≡ t.entry q
  pub same_size : t'.size ≡ t.size

abbrev pub Allocates : Table → ℕ → ℕ → ℕ → List ℕ → Outcome (ℕ × Table) → Type 0
Allocates t n a k cs (done (last, t')) = (n ≤ count_free t a k) × Grown t t' n a cs last
Allocates t n a k cs wild = count_free t a k < n
Allocates t n a k cs (fatal h) = ⊥
Allocates t n a k cs no_fuel = ⊥

-- The mark or number that goes into the entry of a cluster that was found.
abbrev mark : ℕ → ℕ
mark last = if last == 0 then 0x0FFFFFFF else last

All-lt-weaken :
    (a b : ℕ) (cs : List ℕ)
    → a ≤ b
    → All (λ x. (0 < x) × (x < a)) cs
    → All (λ x. (0 < x) × (x < b)) cs
All-lt-weaken a b [] le h = tt
All-lt-weaken a b (c ∷ cs) le h = ((h.0.0, omega (arith, h.0.1)), All-lt-weaken a b cs le h.1)

All-lt-ne : (a c : ℕ) (cs : List ℕ) → a ≤ c → All (λ x. (0 < x) × (x < a)) cs → All (λ x. x ≢ c) cs
All-lt-ne a c [] le h = tt
All-lt-ne a c (x ∷ cs) le h = (omega (arith, h.0.1), All-lt-ne a c cs le h.1)

IsBuilt-cons :
    (t : Table) (a last c : ℕ) (cs : List ℕ)
    → IsTable t
    → a ≤ c
    → 0 < c
    → c < t.size
    → IsBuilt t a last cs
    → IsBuilt (with_entry t c (mark last)) (c + 1) c (c ∷ cs)
IsBuilt-cons t a last c [] v le pos lt h =
    let m : mark last ≡ 0x0FFFFFFF = ground (arith, h) in
    let e : poke t.entry c (mark last) c ≡ 0x0FFFFFFF = ground (arith, m) in
    (refl, ((pos, omega arith), tt), (lt, rw e (omega arith)))
IsBuilt-cons t a last c (d ∷ ds) v le pos lt (h, below, chain) =
    let m : mark last ≡ d = ground (arith, h, below.0.0) in
    let e : poke t.entry c (mark last) c ≡ d = ground (arith, m) in
    (
      refl,
      ((pos, omega arith), All-lt-weaken a (c + 1) (d ∷ ds) (omega arith) below),
      (
        lt,
        rw e (omega (arith, v.small, below.0.1)),
        below.0.0,
        omega (arith, v.small, below.0.1),
        IsChain-write t c (mark last) (d ∷ ds) (All-lt-ne a c (d ∷ ds) le below) chain,
      ),
    )

IsTable-write : (t : Table) (c v : ℕ) → 0 < c → IsTable t → IsTable (with_entry t c v)
IsTable-write t c v pos h =
    let e : poke t.entry c v 0 ≡ t.entry 0 = ground (arith) in
    record { small = h.small; reserved = rw e h.reserved }

fresh-write :
    (t : Table) (a c v : ℕ) (new : List ℕ)
    → a ≤ c
    → All (λ q. (c + 1 ≤ q) × (q < t.size) × (next (with_entry t c v) q ≡ 0)) new
    → All (λ q. (a ≤ q) × (q < t.size) × (next t q ≡ 0)) new
fresh-write t a c v [] le h = tt
fresh-write t a c v (q ∷ new) le h =
    let e : poke t.entry c v q ≡ t.entry q = ground (arith, h.0.0) in
    (
      (omega (arith, h.0.0), h.0.1, ap (λ (k : ℕ). k % 2 ^ 28) (sym e) ∙ h.0.2),
      fresh-write t a c v new le h.1,
    )

All-snoc : (P : ℕ → Type 0) (xs : List ℕ) (c : ℕ) → All P xs → P c → All P (xs ++ (c ∷ []))
All-snoc P [] c h last = (last, tt)
All-snoc P (x ∷ xs) c h last = (h.0, All-snoc P xs c h.1 last)

All-unsnoc : (P : ℕ → Type 0) (xs : List ℕ) (c : ℕ) → All P (xs ++ (c ∷ [])) → All P xs × P c
All-unsnoc P [] c h = (tt, h.0)
All-unsnoc P (x ∷ xs) c h = let (init, last) = All-unsnoc P xs c h.1 in ((h.0, init), last)

-- One more cluster at the front of what the rest of the loop starts from.
Grown-cons :
    (t t' : Table) (n a c v last : ℕ) (cs : List ℕ)
    → a ≤ c
    → c < t.size
    → next t c ≡ 0
    → ((q : ℕ) → a ≤ q → q < c → next t q ≢ 0)
    → Grown (with_entry t c v) t' n (c + 1) (c ∷ cs) last
    → Grown t t' (suc n) a cs last
Grown-cons t t' n a c v last cs le lt free used g = record {
  new = g.new ++ (c ∷ []);
  amount = omega (arith, g.amount, length-append g.new (c ∷ []));
  built =
      subst (λ (l : List ℕ). IsBuilt t' t.size last l) (sym (append_assoc g.new (c ∷ []) cs))
        g.built;
  fresh =
      All-snoc (λ q. (a ≤ q) × (q < t.size) × (next t q ≡ 0)) g.new c
        (fresh-write t a c v g.new le g.fresh) (le, lt, free);
  others = λ q out.
      let (init, ne) = All-unsnoc (λ x. x ≢ q) g.new c out in g.others q init ∙ unwritten q ne;
  first = λ q from free' out.
      let (init, ne) = All-unsnoc (λ x. x ≢ q) g.new c out in
      let behind : c < q = past q from free' ne in
      All-snoc (λ x. x < q) g.new c
        (g.first q (omega (arith, behind)) (ap (λ (k : ℕ). k % 2 ^ 28) (unwritten q ne) ∙ free')
          init)
        behind;
  kept = λ q taken.
      let ne : c ≢ q = λ e. taken (ap (next t) (sym e) ∙ free) in
      let same : poke t.entry c v q ≡ t.entry q = ground (arith, ne) in
      g.kept q (λ z. taken (ap (λ (k : ℕ). k % 2 ^ 28) (sym same) ∙ z)) ∙ same;
  same_size = g.same_size;
}
  where
    unwritten : (q : ℕ) → c ≢ q → poke t.entry c v q ≡ t.entry q
    unwritten q ne = ground (arith, ne)

    past : (q : ℕ) → a ≤ q → next t q ≡ 0 → c ≢ q → c < q
    past q from free' ne = elim (Bool-cases (ltb q c)) [
      | inl before ↦ absurd (used q from (ltb→lt q c before) free')
      | inr behind ↦ ground (arith, behind, ne)
    ]

Allocates-cons :
    (t : Table) (n a k c left v : ℕ) (cs : List ℕ) (r : Outcome (ℕ × Table))
    → a ≤ c
    → c + 1 + left ≡ t.size
    → next t c ≡ 0
    → count_free t a k ≡ 1 + count_free t (c + 1) left
    → ((q : ℕ) → a ≤ q → q < c → next t q ≢ 0)
    → Allocates (with_entry t c v) n (c + 1) left (c ∷ cs) r
    → Allocates t (suc n) a k cs r
Allocates-cons t n a k c left v cs (done (last, t')) le e free count used (enough, g) =
    let same = count_free-write t c v (c + 1) left (omega arith) in
    (omega (arith, same), Grown-cons t t' n a c v last cs le (omega arith) free used g)
Allocates-cons t n a k c left v cs wild le e free count used few =
    let same = count_free-write t c v (c + 1) left (omega arith) in omega (arith, same)
Allocates-cons t n a k c left v cs (fatal h) le e free count used f = elim f [ ]
Allocates-cons t n a k c left v cs no_fuel le e free count used f = elim f [ ]

IsBuilt-le :
    (t : Table) (a b last : ℕ) (cs : List ℕ) → a ≤ b → IsBuilt t a last cs → IsBuilt t b last cs
IsBuilt-le t a b last [] le h = h
IsBuilt-le t a b last (c ∷ cs) le h = (h.0, All-lt-weaken a b (c ∷ cs) le h.1, h.2)

free-pos : (t : Table) (c : ℕ) → IsTable t → next t c ≡ 0 → 0 < c
free-pos t zero v free = absurd (v.reserved free)
free-pos t (suc c) v free = omega arith

gm_loop-step :
    (n : ℕ)
    → ((t : Table) (a k last : ℕ) (cs : List ℕ)
        → IsTable t
        → a + k ≡ t.size
        → IsBuilt t a last cs
        → Allocates t n a k cs (gm_loop n t a last))
    → (t : Table) (a k last : ℕ) (cs : List ℕ) → IsTable t
    → IsBuilt t a last cs
    → (r : Outcome ℕ) → Finds t a k r
    → Allocates t
        (suc n)
        a
        k
        cs
        (r >>= λ c. write_entry t c (mark last) >>= λ t'. gm_loop n t' (c + 1) c)
unfolding write_entry
gm_loop-step n ih t a k last cs v h (done c) (left, le, e', free, count, used) =
    let inside = lt→ltb c t.size (omega arith) in
    let pos = free-pos t c v free in
    rw inside (
      Allocates-cons t n a k c left (mark last) cs _ le e' free count used (
        ih (with_entry t c (mark last)) (c + 1) left c (c ∷ cs)
          (IsTable-write t c (mark last) pos v) e'
          (IsBuilt-cons t a last c cs v le pos (omega arith) h)))
gm_loop-step n ih t a k last cs v h wild none_free = omega (arith, none_free)
gm_loop-step n ih t a k last cs v h (fatal x) f = elim f [ ]
gm_loop-step n ih t a k last cs v h no_fuel f = elim f [ ]

gm_loop-Allocates :
    (n : ℕ) (t : Table) (a k last : ℕ) (cs : List ℕ)
    → IsTable t
    → a + k ≡ t.size
    → IsBuilt t a last cs
    → Allocates t n a k cs (gm_loop n t a last)
unfolding gm_loop
gm_loop-Allocates zero t a k last cs v e h = (
  omega arith,
  record {
    new = [];
    amount = refl;
    built = IsBuilt-le t a t.size last cs (omega arith) h;
    fresh = tt;
    others = λ q out. refl;
    first = λ q from free out. tt;
    kept = λ q taken. refl;
    same_size = refl;
  },
)
gm_loop-Allocates (suc n) t a k last cs v e h =
    gm_loop-step n (gm_loop-Allocates n) t a k last cs v h (find_free (t.size + 1) t a)
      (find_free-Finds (t.size + 1) t a k e (omega arith))

-- In a table whose entry 0 is not free and whose numbers are no marks, `gm_free_clusters` succeeds
-- exactly if as many clusters are free as it is to get; otherwise it reads behind the end of the
-- table. The clusters that it got were free, and every free one that it did not get lies behind all of
-- them; they are now a chain of that length from the one on that it returns, and no other entry has
-- changed.
pub gm_free_clusters-Allocates :
    (nbr : ℕ) (t : Table) → IsTable t → Allocates t nbr 0 t.size [] (gm_free_clusters nbr t)
unfolding gm_free_clusters
gm_free_clusters-Allocates nbr t v = gm_loop-Allocates nbr t 0 t.size 0 [] v (omega arith) refl
