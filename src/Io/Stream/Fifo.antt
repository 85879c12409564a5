-- ===== src/Io/Stream/Fifo.antt =====
-- A stream is a queue of bytes.
use vk.Prelude.{
  ℕ, zero, suc, ◌+◌, ◌-◌, ◌*◌, ◌%◌, ◌^◌, ◌≤◌, ◌<◌, ◌≡◌, ◌≢◌, refl, ◌∙◌, ap, ap₂, sym, true, false,
  List, [], ◌∷◌, ◌++◌, append-nil, ltb, ◌==◌, length, arith, ◌⊎◌, Bool-cases, inl, inr,
}
use vk.Prelude.{bytes, copy_in, bytes-copy_in, bytes-copy_in_before, bytes-append, length-bytes}
use vk.Io.Stream.{
  IoStream, copy_down, iostream_wait, autoexpand, Read, got, waits, iostream_getch, iostream_read,
  wrote, overrun, put_bytes, iostream_write, error_file_fs_internal,
}

-- What the readers have yet to see.
unfoldable pub contents : IoStream → List ℕ
contents s = bytes s.buffer 0 s.count

bytes-copy_down :
    (b : ℕ → ℕ) (off n i m : ℕ) → i + m ≤ n → bytes (copy_down b off n) i m ≡ bytes b (i + off) m
unfolding bytes
bytes-copy_down b off n i zero h = refl
bytes-copy_down b off n i (suc m) h =
    ap₂ ◌∷◌ (ground arith)
      (bytes-copy_down b off n (i + 1) m (omega arith) ∙ ap (λ k. bytes b k m) (omega arith))

-- The write put the bytes behind those that were there, and woke every thread that waited.
pub record Queued (src : List ℕ) (s t : IoStream) (woken : List (ℕ × ℕ)) : Type 0 where
  pub queue : contents t ≡ contents s ++ src
  pub fits : t.count ≤ t.buffer_size
  pub woke : woken ≡ s.waiting
  pub nobody : t.waiting ≡ []
  pub kept : t.attributes ≡ s.attributes

put_bytes-Queued :
    (src : List ℕ) (s : IoStream)
    → s.count + length src ≤ s.buffer_size
    → (t : IoStream) × (put_bytes src s ≡ wrote t s.waiting) × Queued src s t s.waiting
unfolding put_bytes contents
put_bytes-Queued src s h =
    let b = copy_in s.buffer s.count src in
    let room : ltb s.buffer_size (s.count + length src) ≡ false = ground arith in
    (
      record s { buffer = b; count = s.count + length src; waiting = [] },
      rw room refl,
      record {
        queue =
            bytes-append b 0 s.count (length src)
            ∙ ap₂ ◌++◌ (bytes-copy_in_before s.buffer s.count src 0 s.count (omega arith))
                (bytes-copy_in s.buffer s.count (0 + s.count) [] src (omega arith));
        fits = h;
        woke = refl;
        nobody = refl;
        kept = refl;
      },
    )

-- A write that fits, or that fits into twice the buffer where the stream expands by itself, puts
-- its bytes behind those that are there, and wakes every thread that waits.
pub iostream_write-Queued :
    (src : List ℕ) (s : IoStream)
    → s.count + length src < 2 ^ 32
    → s.buffer_size < 2 ^ 31
    → (s.count + length src ≤ s.buffer_size)
      ⊎ (autoexpand s.attributes ≡ true) × (s.count + length src ≤ 2 * s.buffer_size)
    → (t : IoStream) × (iostream_write src s ≡ wrote t s.waiting) × Queued src s t s.waiting
unfolding iostream_write contents
iostream_write-Queued src s small size (inl fits) =
    let e : ltb s.buffer_size ((s.count + length src) % 2 ^ 32) ≡ false = ground arith in
    rw e (put_bytes-Queued src s fits)
iostream_write-Queued src s small size (inr (auto, fits)) =
    elim (Bool-cases (ltb s.buffer_size ((s.count + length src) % 2 ^ 32))) [
      | inl e ↦
          let q =
            put_bytes-Queued src (record s { buffer_size = s.buffer_size * 2 % 2 ^ 32 })
              (omega arith) in
          rw (e, auto)
            (
              q.0,
              q.1,
              record {
                queue = q.2.queue;
                fits = q.2.fits;
                woke = refl;
                nobody = q.2.nobody;
                kept = q.2.kept;
              },
            )
      | inr e ↦ rw e (put_bytes-Queued src s (ground arith))
    ]

-- A write that does not fit even into twice the buffer runs over its end, although the stream
-- expands by itself.
pub iostream_write-overrun :
    (src : List ℕ) (s : IoStream)
    → s.count + length src < 2 ^ 32
    → s.buffer_size < 2 ^ 31
    → autoexpand s.attributes ≡ true
    → 2 * s.buffer_size < s.count + length src
    → iostream_write src s ≡ overrun
unfolding iostream_write put_bytes
iostream_write-overrun src s small size auto big =
    let e : ltb s.buffer_size ((s.count + length src) % 2 ^ 32) ≡ true = ground arith in
    let f : ltb (s.buffer_size * 2 % 2 ^ 32) (s.count + length src) ≡ true = ground arith in
    rw (e, auto, f)

-- The first byte of a queue of `n` bytes, and the others moved down.
bytes-first :
    (b : ℕ → ℕ) (n c : ℕ) (rest : List ℕ)
    → bytes b 0 n ≡ c ∷ rest
    → (0 < n) × (b 0 ≡ c) × (bytes (copy_down b 1 (n - 1)) 0 (n - 1) ≡ rest)
unfolding bytes
bytes-first b zero c rest h = cc
bytes-first b (suc n) c rest h =
    let e : suc n - 1 ≡ n = omega arith in
    (omega arith, ground arith, rw e (bytes-copy_down b 1 n 0 n (omega arith) ∙ tail))
  where
    tail : bytes b 1 n ≡ rest
    tail = ground arith

-- `iostream_getch` takes the first byte of the queue.
pub iostream_getch-first :
    (thread : ℕ × ℕ) (s : IoStream) (c : ℕ) (rest : List ℕ)
    → contents s ≡ c ∷ rest
    → (t : IoStream) × (iostream_getch thread s ≡ got (c ∷ []) t)
      × (contents t ≡ rest)
      × (t.count + 1 ≡ s.count)
      × (t.attributes ≡ s.attributes)
unfolding contents iostream_getch
iostream_getch-first thread s c rest h =
    let first = bytes-first s.buffer s.count c rest h in
    let some_byte : ltb 0 s.count ≡ true = ground (arith, first) in
    (
      record s { count = s.count - 1; buffer = copy_down s.buffer 1 (s.count - 1) },
      rw (some_byte, first.1) refl,
      first.2,
      omega (arith, first.0),
      refl,
    )

-- `iostream_getch` comes to one byte or to a wait.
pub iostream_getch-cases :
    (thread : ℕ × ℕ) (s : IoStream)
    → ((ch : ℕ) × (t : IoStream) × (iostream_getch thread s ≡ got (ch ∷ []) t))
      ⊎ ((t : IoStream) × (iostream_getch thread s ≡ waits t))
unfolding iostream_getch
iostream_getch-cases thread s = elim (Bool-cases (ltb 0 s.count)) [
  | inl full ↦ inl (
    s.buffer 0,
    record s { count = s.count - 1; buffer = copy_down s.buffer 1 (s.count - 1) },
    rw full refl,
  )
  | inr empty ↦ elim (Bool-cases (s.attributes == 0)) [
    | inl bare ↦ inl (0, s, rw (empty, bare) refl)
    | inr some_set ↦ inr (iostream_wait thread s, rw (empty, some_set) refl)
  ]
]

pub contents-wait : (thread : ℕ × ℕ) (s : IoStream) → contents (iostream_wait thread s) ≡ contents s
unfolding contents
contents-wait thread s = refl

pub contents-none : (s : IoStream) → contents s ≡ [] → s.count ≡ 0
unfolding contents
contents-none s e = sym (length-bytes s.buffer 0 s.count) ∙ ap length e

-- A write that fits does not change the size of the buffer.
pub iostream_write-fits :
    (src : List ℕ) (s : IoStream)
    → s.buffer_size < 2 ^ 31
    → s.count + length src ≤ s.buffer_size
    → (t : IoStream) × (iostream_write src s ≡ wrote t s.waiting)
      × Queued src s t s.waiting
      × (t.count ≡ s.count + length src)
      × (t.buffer_size ≡ s.buffer_size)
unfolding iostream_write put_bytes put_bytes-Queued
iostream_write-fits src s size fits =
    let e : ltb s.buffer_size ((s.count + length src) % 2 ^ 32) ≡ false = ground arith in
    let f : ltb s.buffer_size (s.count + length src) ≡ false = ground arith in
    let q = put_bytes-Queued src s fits in
    (
      record s {
        buffer = copy_in s.buffer s.count src;
        count = s.count + length src;
        waiting = [];
      },
      rw (e, f) refl,
      q.2,
      refl,
      refl,
    )

-- At an empty queue `iostream_getch` and `iostream_read` of one byte return at once only if no
-- attribute at all is set; the bit for reads that block does not decide it.
pub iostream_getch-waits :
    (thread : ℕ × ℕ) (s : IoStream)
    → s.count ≡ 0
    → s.attributes ≢ 0
    → (iostream_getch thread s ≡ waits (iostream_wait thread s))
      × (iostream_read thread 1 s ≡ waits (iostream_wait thread s))
unfolding iostream_getch iostream_read
iostream_getch-waits thread s e ne = (ground arith, ground arith)

-- No stream, whatever its attributes, can be read more than one byte at a time; the code tests
-- `attributes | IOSTREAM_ATTR_ONE_BYTE`.
pub iostream_read-refuses :
    (thread : ℕ × ℕ) (count : ℕ) (s : IoStream)
    → 1 < count
    → iostream_read thread count s ≡ Read.failed error_file_fs_internal
unfolding iostream_read
iostream_read-refuses thread count s h = ground arith

-- Reads `n` bytes, one at a time, as the terminals do.
pub drain : ℕ → ℕ × ℕ → IoStream → List ℕ × IoStream
drain zero thread s = ([], s)
drain (suc n) thread s = elim (iostream_getch thread s) [
  | got cs t ↦ let (rest, u) = drain n thread t in (cs ++ rest, u)
  | Read.failed e ↦ ([], s)
  | waits t ↦ ([], t)
]

drain-contents :
    (n : ℕ) (thread : ℕ × ℕ) (s : IoStream) (xs ys : List ℕ)
    → contents s ≡ xs ++ ys
    → length xs ≡ n
    → ((drain n thread s).0 ≡ xs) × (contents (drain n thread s).1 ≡ ys)
unfolding drain
drain-contents zero thread s [] ys h e = (refl, h)
drain-contents zero thread s (x ∷ xs) ys h e = absurd (omega (arith, e))
drain-contents (suc n) thread s [] ys h e = absurd (omega (arith, e))
drain-contents (suc n) thread s (x ∷ xs) ys h e =
    let first = iostream_getch-first thread s x (xs ++ ys) h in
    let ih = drain-contents n thread first.0 xs ys first.2 (omega (arith, e)) in
    rw (first.1, drain) (ap (λ (l : List ℕ). x ∷ l) ih.0, ih.1)

-- What a write puts into a stream is what is read from it, byte by byte and in order, behind what
-- was there, and nothing is left over.
pub drain-iostream_write :
    (src : List ℕ) (thread : ℕ × ℕ) (s : IoStream)
    → s.count + length src < 2 ^ 32
    → s.buffer_size < 2 ^ 31
    → (s.count + length src ≤ s.buffer_size)
      ⊎ (autoexpand s.attributes ≡ true) × (s.count + length src ≤ 2 * s.buffer_size)
    → (t : IoStream) × (iostream_write src s ≡ wrote t s.waiting)
      × ((drain (length (contents s ++ src)) thread t).0 ≡ contents s ++ src)
      × (contents (drain (length (contents s ++ src)) thread t).1 ≡ [])
drain-iostream_write src thread s small size room =
    let q = iostream_write-Queued src s small size room in
    let d =
      drain-contents (length (contents s ++ src)) thread q.0 (contents s ++ src) []
        (q.2.queue ∙ sym (append-nil (contents s ++ src))) refl in
    (q.0, q.1, d.0, d.1)
