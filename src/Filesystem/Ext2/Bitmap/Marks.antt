-- ===== src/Filesystem/Ext2/Bitmap/Marks.antt =====
-- Bits of a bitmap.
use vk.Prelude.{
  ℕ, ◌+◌, ◌*◌, ◌/◌, ◌%◌, ◌^◌, ◌≤◌, ◌<◌, ◌≡◌, ◌≢◌, refl, ap, subst, ◌∙◌, zero, suc, true, false,
  ◌==◌, poke, Bool-cases, inl, inr, ==→eq, ==→ne, Option, none, some, arith,
}
use vk.Filesystem.Ext2.Bitmap.{
  bit_at, zero_bit, marked, mark_from, bitmap_mark_first_zero_bit, bitmap_mark_bit_free,
}

abbrev pub bit : (ℕ → ℕ) → ℕ → ℕ
bit m n = bit_at (m (n / 8)) (n % 8)

-- What a search of the bits from `j` on comes to.
abbrev Found : ℕ → ℕ → ℕ → Option ℕ → Type 0
Found v j k (some n) =
    (j ≤ n) × (n < j + k) × (bit_at v n ≡ 0) × ((b : ℕ) → j ≤ b → b < n → bit_at v b ≡ 1)
Found v j k none = (b : ℕ) → j ≤ b → b < j + k → bit_at v b ≡ 1

odd : (j v : ℕ) → bit_at v j ≢ 0 → bit_at v j ≡ 1
unfolding bit_at
odd zero v h = omega (arith, h)
odd (suc j) v h = odd j (v / 2) h

Found-suc : (v j k : ℕ) (r : Option ℕ) → bit_at v j ≡ 1 → Found v (j + 1) k r → Found v j (suc k) r
Found-suc v j k (some n) one f =
    (omega (arith, f.0), omega (arith, f.1), f.2, λ b le lt. from b le lt)
  where
    from : (b : ℕ) → j ≤ b → b < n → bit_at v b ≡ 1
    from b le lt = elim (Bool-cases (b == j)) [
      | inl same ↦ rw (==→eq b j same) one
      | inr other ↦ let ne = ==→ne b j other in f.3 b (omega (arith, ne)) lt
    ]
Found-suc v j k none one f = λ b le lt. from b le lt
  where
    from : (b : ℕ) → j ≤ b → b < j + suc k → bit_at v b ≡ 1
    from b le lt = elim (Bool-cases (b == j)) [
      | inl same ↦ rw (==→eq b j same) one
      | inr other ↦ let ne = ==→ne b j other in f b (omega (arith, ne)) (omega (arith, lt))
    ]

zero_bit-Found : (k j v : ℕ) → Found v j k (zero_bit k j v)
unfolding zero_bit
zero_bit-Found zero j v = λ b le lt. absurd (omega arith)
zero_bit-Found (suc k) j v = elim (Bool-cases (bit_at v j == 0)) [
  | inl clear ↦
      rw clear
        (omega arith, omega arith, ==→eq (bit_at v j) 0 clear, λ b le lt. absurd (omega arith))
  | inr set ↦ rw set (
      Found-suc v j k (zero_bit k (j + 1) v) (odd j v (==→ne (bit_at v j) 0 set))
        (zero_bit-Found k (j + 1) v))
]

-- A clear bit is set by adding its value.
half-set : (j v : ℕ) → (v + 2 ^ suc j) / 2 ≡ v / 2 + 2 ^ j
half-set j v = omega arith

bit_at-set : (j v : ℕ) → bit_at v j ≡ 0 → bit_at (v + 2 ^ j) j ≡ 1
unfolding bit_at
bit_at-set zero v h = omega (arith, h)
bit_at-set (suc j) v h = ap (λ w. bit_at w j) (half-set j v) ∙ bit_at-set j (v / 2) h

bit_at-set_other : (j k v : ℕ) → bit_at v j ≡ 0 → k ≢ j → bit_at (v + 2 ^ j) k ≡ bit_at v k
unfolding bit_at
bit_at-set_other zero zero v h ne = absurd (ne refl)
bit_at-set_other zero (suc k) v h ne =
    let e : (v + 1) / 2 ≡ v / 2 = omega (arith, h) in ap (λ w. bit_at w k) e
bit_at-set_other (suc j) zero v h ne = omega arith
bit_at-set_other (suc j) (suc k) v h ne =
    ap (λ w. bit_at w k) (half-set j v)
    ∙ bit_at-set_other j k (v / 2) h (λ (e : k ≡ j). ne (ap (λ x. suc x) e))

-- The bitmap `m'` is `m` with bit `n`, the first clear one from byte `i` on, set; or all bits of the
-- bytes are set.
abbrev pub MarksFrom : ℕ → ℕ → (ℕ → ℕ) → Option (ℕ × (ℕ → ℕ)) → Type 0
MarksFrom len i m (some (n, m')) =
    (8 * i ≤ n)
    × (n < 8 * (i + len))
    × (bit m n ≡ 0)
    × (bit m' n ≡ 1)
    × ((k : ℕ) → 8 * i ≤ k → k < n → bit m k ≡ 1)
    × ((k : ℕ) → k ≢ n → bit m' k ≡ bit m k)
MarksFrom len i m none = (k : ℕ) → 8 * i ≤ k → k < 8 * (i + len) → bit m k ≡ 1

marked-here :
    (len i j : ℕ) (m : ℕ → ℕ)
    → Found (m i) 0 8 (some j)
    → MarksFrom (suc len) i m (some (8 * i + j, poke m i (m i + 2 ^ j)))
marked-here len i j m f =
    let a : (8 * i + j) / 8 ≡ i = omega (arith, f.1) in
    let b : (8 * i + j) % 8 ≡ j = omega (arith, f.1) in
    let same : poke m i (m i + 2 ^ j) i ≡ m i + 2 ^ j = ground arith in
    (
      omega arith,
      omega (arith, f.1),
      rw (a, b) f.2,
      rw (a, b, same) (bit_at-set j (m i) f.2),
      λ k le lt.
          let a' : k / 8 ≡ i = omega (arith, f.1) in
          rw a' (f.3 (k % 8) (omega arith) (omega arith)),
      λ k ne. elim (Bool-cases (i == k / 8)) [
        | inl here ↦
            let e = ==→eq i (k / 8) here in
            rw here (
              bit_at-set_other j (k % 8) (m i) f.2 (λ (x : k % 8 ≡ j). ne (omega (arith, e, x)))
              ∙ ap (λ q. bit_at (m q) (k % 8)) e)
        | inr there ↦ rw there refl
      ],
    )

-- The bits of byte `i` are set, and so are those between the next byte and `n`.
first_byte :
    (i n : ℕ) (m : ℕ → ℕ)
    → Found (m i) 0 8 none
    → ((k : ℕ) → 8 * (i + 1) ≤ k → k < n → bit m k ≡ 1)
    → (k : ℕ) → 8 * i ≤ k
    → k < n
    → bit m k ≡ 1
first_byte i n m f g k le lt = elim (Bool-cases (k / 8 == i)) [
  | inl here ↦ rw (==→eq (k / 8) i here) (f (k % 8) (omega arith) (omega arith))
  | inr there ↦ let ne = ==→ne (k / 8) i there in g k (omega (arith, ne)) lt
]

marked-MarksFrom :
    (len i : ℕ) (m : ℕ → ℕ) (r : Option ℕ) (rest : Option (ℕ × (ℕ → ℕ)))
    → Found (m i) 0 8 r
    → MarksFrom len (i + 1) m rest
    → MarksFrom (suc len) i m (marked i m r rest)
marked-MarksFrom len i m (some j) rest f g = marked-here len i j m f
marked-MarksFrom len i m none (some (n, m')) f g = (
  omega (arith, g.0),
  omega (arith, g.1),
  g.2,
  g.3,
  λ k le lt. first_byte i n m f g.4 k le lt,
  g.5,
)
marked-MarksFrom len i m none none f g =
    λ k le lt. first_byte i (8 * (i + suc len)) m f (λ q a b. g q a (omega arith)) k le lt

mark_from-MarksFrom : (len i : ℕ) (m : ℕ → ℕ) → MarksFrom len i m (mark_from len i m)
unfolding mark_from
mark_from-MarksFrom zero i m = λ k le lt. absurd (omega arith)
mark_from-MarksFrom (suc len) i m =
    marked-MarksFrom len i m (zero_bit 8 0 (m i)) (mark_from len (i + 1) m)
      (zero_bit-Found 8 0 (m i)) (mark_from-MarksFrom len (i + 1) m)

bit_at-zero : (j : ℕ) → bit_at 0 j ≡ 0
unfolding bit_at
bit_at-zero zero = refl
bit_at-zero (suc j) = bit_at-zero j

-- What `ext2_bitmap_mark_first_zero_bit` promises: it finds the first clear bit and sets it and no
-- other, or all bits are set.
abbrev pub Marks : ℕ → (ℕ → ℕ) → Option (ℕ × (ℕ → ℕ)) → Type 0
Marks len m (some (n, m')) =
    (n < 8 * len)
    × (bit m n ≡ 0)
    × (bit m' n ≡ 1)
    × ((k : ℕ) → k < n → bit m k ≡ 1)
    × ((k : ℕ) → k ≢ n → bit m' k ≡ bit m k)
Marks len m none = (k : ℕ) → k < 8 * len → bit m k ≡ 1

-- The bit that `ext2_bitmap_mark_first_zero_bit` returns is the first clear one of the bitmap; it is
-- set then, and no other changes; -1 is returned exactly if all bits are set.
pub bitmap_mark_first_zero_bit-Marks :
    (len : ℕ) (m : ℕ → ℕ) → Marks len m (bitmap_mark_first_zero_bit len m)
unfolding bitmap_mark_first_zero_bit
bitmap_mark_first_zero_bit-Marks len m =
    from_start (bitmap_mark_first_zero_bit len m) (mark_from-MarksFrom len 0 m)
  where
    from_start : (r : Option (ℕ × (ℕ → ℕ))) → MarksFrom len 0 m r → Marks len m r
    from_start (some (n, m')) (_, below, clear, set, before, others) =
        (omega (arith, below), clear, set, λ k lt. before k (omega arith) lt, others)
    from_start none g = λ k lt. g k (omega arith) (omega arith)

-- In a bitmap in which `ext2_bitmap_mark_first_zero_bit` has marked a bit, `ext2_bitmap_mark_bit_free`
-- of it clears all eight bits of the byte of the bit, and leaves the bits of the other bytes as they
-- were before the mark; the bits before the marked one, also those of its byte, were all set.
pub bitmap_mark_bit_free-byte :
    (len : ℕ) (m m' : ℕ → ℕ) (n : ℕ)
    → bitmap_mark_first_zero_bit len m ≡ some (n, m')
    → ((k : ℕ) → k / 8 ≡ n / 8 → bit (bitmap_mark_bit_free m' n) k ≡ 0)
      × ((k : ℕ) → k / 8 ≢ n / 8 → bit (bitmap_mark_bit_free m' n) k ≡ bit m k)
      × ((k : ℕ) → k < n → bit m k ≡ 1)
unfolding bitmap_mark_bit_free
bitmap_mark_bit_free-byte len m m' n h =
    let (_, _, _, before, others) : Marks len m (some (n, m')) =
      subst (Marks len m) h (bitmap_mark_first_zero_bit-Marks len m) in
    (
      λ k same.
          let here : (n / 8 == k / 8) ≡ true = ground (arith, same) in
          rw here (bit_at-zero (k % 8)),
      λ k apart.
          let there : (n / 8 == k / 8) ≡ false = ground (arith, apart) in
          rw there (others k (λ (e : k ≡ n). apart (ap (λ x. x / 8) e))),
      before,
    )
