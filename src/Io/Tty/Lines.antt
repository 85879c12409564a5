-- ===== src/Io/Tty/Lines.antt =====
-- Canonical reads: lines from the keyboard into the buffer of a reader.
use vk.Prelude.{
  ℕ, zero, suc, ◌+◌, ◌-◌, ◌≤◌, ◌<◌, ◌≡◌, ◌≢◌, ◌⊎◌, refl, sym, ap, ap₂, ◌∙◌, inl, inr, false, List,
  [], ◌∷◌, ◌++◌, append_assoc, append-nil, All, length, if◌then◌else◌, leb, ltb, ◌&&◌, ne→==, poke,
  bytes, bytes-append, length-bytes, arith,
}
use vk.Io.Stream.{IoStream, iostream_getch, iostream_wait, got, waits}
use vk.Io.Stream.Fifo.{
  contents, iostream_getch-first, iostream_getch-waits, contents-none, contents-wait,
}
use vk.Io.Tty.{Console, hold, deliver, with_stream, read_line, returned, blocked, error_none}

-- What a terminal holds back for the reader that waits for the end of its line.
abbrev pub held : Console → List ℕ
held c = bytes c.tty.canon_buffer 0 c.tty.canon_buffer_count

-- A line has no new line before its end.
abbrev pub IsLine : List ℕ → Type 0
IsLine = All (λ ch. ch ≢ 10)

-- The console `c'` is `c` behind the read of `cs` of what the keyboard had sent, `rest` being left.
pub record Taken (c : Console) (cs rest : List ℕ) (c' : Console) : Type 0 where
  pub held_back : held c' ≡ held c ++ cs
  pub left : contents c'.tty.keyboard_stream ≡ rest
  pub attributes : c'.tty.keyboard_stream.attributes ≡ c.tty.keyboard_stream.attributes
  pub modes : c'.tty.termio ≡ c.tty.termio

pub bytes-poke_before : (b : ℕ → ℕ) (k v i n : ℕ) → i + n ≤ k → bytes (poke b k v) i n ≡ bytes b i n
unfolding bytes
bytes-poke_before b k v i zero h = refl
bytes-poke_before b k v i (suc n) h =
    ap₂ ◌∷◌ (ground arith) (bytes-poke_before b k v (i + 1) n (omega arith))

held-hold : (b : ℕ → ℕ) (n ch : ℕ) → bytes (poke b n ch) 0 (n + 1) ≡ bytes b 0 n ++ (ch ∷ [])
unfolding bytes
held-hold b n ch =
    bytes-append (poke b n ch) 0 n 1
    ∙ ap₂ ◌++◌ (bytes-poke_before b n ch 0 n (omega arith)) (ap (λ (x : ℕ). x ∷ []) (ground arith))

-- One character that is taken.
abbrev taken_one : ℕ → IoStream → Console → Console
taken_one ch s c = record c { tty = hold ch (record c.tty { keyboard_stream = s }) }

Taken-cons :
    (c : Console) (ch : ℕ) (s : IoStream) (cs rest : List ℕ) (c' : Console)
    → s.attributes ≡ c.tty.keyboard_stream.attributes
    → Taken (taken_one ch s c) cs rest c'
    → Taken c (ch ∷ cs) rest c'
Taken-cons c ch s cs rest c' same t = record {
  held_back =
      t.held_back
      ∙ ap (λ (l : List ℕ). l ++ cs) (held-hold c.tty.canon_buffer c.tty.canon_buffer_count ch)
      ∙ append_assoc (held c) (ch ∷ []) cs;
  left = t.left;
  attributes = t.attributes ∙ same;
  modes = t.modes;
}

-- The three turns that the loop takes.
module _ (thread : ℕ × ℕ) (m : ℕ → ℕ) (a count : ℕ) (c : Console) (s : IoStream) where
  turn_end :
      iostream_getch thread c.tty.keyboard_stream ≡ got (10 ∷ []) s
      → read_line thread m a (suc count) c ≡ deliver m a count (taken_one 10 s c)
  unfolding read_line
  turn_end e = rw (e, read_line) refl

  turn :
      (ch : ℕ)
      → ch ≢ 10
      → iostream_getch thread c.tty.keyboard_stream ≡ got (ch ∷ []) s
      → read_line thread m a (suc count) c ≡ read_line thread m a count (taken_one ch s c)
  unfolding read_line
  turn ch ne e = let plain = ne→== ch 10 ne in rw (e, plain, read_line) refl

  turn_wait :
      iostream_getch thread c.tty.keyboard_stream ≡ waits s
      → read_line thread m a (suc count) c ≡ blocked (suc count) (with_stream s c)
  unfolding read_line
  turn_wait e = rw (e, read_line) refl

-- A read that finds the end of a line delivers what is held with the line behind it.
pub read_line-line :
    (thread : ℕ × ℕ) (m : ℕ → ℕ) (a count : ℕ) (c : Console) (line rest : List ℕ)
    → IsLine line
    → contents c.tty.keyboard_stream ≡ line ++ (10 ∷ rest)
    → length line < count
    → (c' : Console) × (read_line thread m a count c ≡ deliver m a (count - (length line + 1)) c')
      × Taken c (line ++ (10 ∷ [])) rest c'
read_line-line thread m a zero c line rest plain e lt = absurd (omega (arith, lt))
read_line-line thread m a (suc count) c [] rest plain e lt =
    let (s, got_it, left, _, same) = iostream_getch-first thread c.tty.keyboard_stream 10 rest e in
    (
      taken_one 10 s c,
      turn_end thread m a count c s got_it
          ∙ ap (λ n. deliver m a n (taken_one 10 s c)) (omega arith),
      record {
        held_back = held-hold c.tty.canon_buffer c.tty.canon_buffer_count 10;
        left = left;
        attributes = same;
        modes = refl;
      },
    )
read_line-line thread m a (suc count) c (ch ∷ line) rest plain e lt =
    let (s, got_it, left, _, same) =
      iostream_getch-first thread c.tty.keyboard_stream ch (line ++ (10 ∷ rest)) e in
    let (c', read, taken) =
      read_line-line thread m a count (taken_one ch s c) line rest plain.1 left
        (omega (arith, lt)) in
    (
      c',
      turn thread m a count c s ch plain.0 got_it ∙ read ∙ ap (λ n. deliver m a n c') (omega arith),
      Taken-cons c ch s (line ++ (10 ∷ [])) rest c' same taken,
    )

-- A read that finds no end of a line waits, with what it has taken held back.
pub read_line-waits :
    (thread : ℕ × ℕ) (m : ℕ → ℕ) (a count : ℕ) (c : Console) (cs : List ℕ)
    → IsLine cs
    → contents c.tty.keyboard_stream ≡ cs
    → c.tty.keyboard_stream.attributes ≢ 0
    → length cs < count
    → (c' : Console) × (read_line thread m a count c ≡ blocked (count - length cs) c')
      × Taken c cs [] c'
read_line-waits thread m a zero c cs plain e set lt = absurd (omega (arith, lt))
read_line-waits thread m a (suc count) c [] plain e set lt =
    let s = c.tty.keyboard_stream in
    (
      with_stream (iostream_wait thread s) c,
      turn_wait thread m a count c (iostream_wait thread s)
            (iostream_getch-waits thread s (contents-none s e) set).0
          ∙ ap (λ n. blocked n (with_stream (iostream_wait thread s) c)) (omega arith),
      record {
        held_back = sym (append-nil (held c));
        left = contents-wait thread s ∙ e;
        attributes = refl;
        modes = refl;
      },
    )
read_line-waits thread m a (suc count) c (ch ∷ cs) plain e set lt =
    let (s, got_it, left, _, same) = iostream_getch-first thread c.tty.keyboard_stream ch cs e in
    let (c', read, taken) =
      read_line-waits thread m a count (taken_one ch s c) cs plain.1 left (λ z. set (sym same ∙ z))
        (omega (arith, lt)) in
    (
      c',
      turn thread m a count c s ch plain.0 got_it ∙ read ∙ ap (λ n. blocked n c') (omega arith),
      Taken-cons c ch s cs [] c' same taken,
    )

-- The memory and the console behind a read that has delivered `text` at `a`, of `count` bytes.
pub record Delivered (m : ℕ → ℕ) (a count : ℕ) (text rest : List ℕ) (m' : ℕ → ℕ) (c' : Console)
    : Type 0 where
  pub text_there : bytes m' a (length text) ≡ text
  pub zeros : (q : ℕ) → a + length text ≤ q → q < a + count → m' q ≡ 0
  pub others : (q : ℕ) → (q < a) ⊎ ((a + length text ≤ q) × (a + count ≤ q)) → m' q ≡ m q
  pub left : contents c'.tty.keyboard_stream ≡ rest
  pub none_held : held c' ≡ []

bytes-moved :
    (f g : ℕ → ℕ) (a b n : ℕ)
    → ((i : ℕ) → i < n → f (a + i) ≡ g (b + i))
    → bytes f a n ≡ bytes g b n
unfolding bytes
bytes-moved f g a b zero same = refl
bytes-moved f g a b (suc n) same =
    ap₂ ◌∷◌ (ap f (omega arith) ∙ same 0 (omega arith) ∙ ap g (omega arith)) (
      bytes-moved f g (a + 1) (b + 1) n
        (λ i lt. ap f (omega arith) ∙ same (i + 1) (omega (arith, lt)) ∙ ap g (omega arith)))

-- What has been held is delivered, if as many bytes again were asked for and not read.
pub deliver-Delivered :
    (m : ℕ → ℕ) (a count : ℕ) (c : Console) (text rest : List ℕ)
    → held c ≡ text
    → contents c.tty.keyboard_stream ≡ rest
    → length text ≤ count
    → (m' : ℕ → ℕ) × (c' : Console) × (deliver m a count c ≡ returned error_none m' c')
      × Delivered m a count text rest m' c'
unfolding bytes
deliver-Delivered m a count c text rest h left le =
    let n = c.tty.canon_buffer_count in
    let len : length text ≡ n = ap length (sym h) ∙ length-bytes c.tty.canon_buffer 0 n in
    let room : ltb count n ≡ false = ground (arith, le, len) in
    let m' : ℕ → ℕ = λ q.
      if leb a q && ltb q (a + n)
      then c.tty.canon_buffer (q - a)
      else if leb (a + n) q && ltb q (a + count)
      then 0
      else m q in
    (
      m',
      record c {
        tty = record c.tty { canon_buffer_count = 0; canon_buffer = poke c.tty.canon_buffer 0 0 };
      },
      rw room refl,
      record {
        text_there =
            ap (bytes m' a) len
            ∙ bytes-moved m' c.tty.canon_buffer a 0 n (λ i lt. ground (arith, lt))
            ∙ h;
        zeros = λ q from below. ground (arith, from, below, len);
        others = λ q out. elim out [
          | inl before ↦ ground (arith, before, len)
          | inr after ↦ ground (arith, after.0, after.1, len)
        ];
        left = left;
        none_held = refl;
      },
    )
