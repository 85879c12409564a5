-- ===== src/Io/Tty/Modes.antt =====
-- What single characters do: the erase character, escape sequences, and reads that do not wait.
use vk.Prelude.{
  ℕ, zero, suc, ◌+◌, ◌-◌, ◌*◌, ◌%◌, ◌^◌, ◌≤◌, ◌<◌, ◌≡◌, ◌≢◌, refl, sym, ap, ap₂, ◌∙◌, true, false,
  ◌==◌, ltb, ne→==, List, [], ◌∷◌, ◌++◌, some, take, poke, bytes, copy_in, get_or, length,
  length-append, length-bytes, take-bytes, get_or-bytes, get_or-append, done, arith,
}
use vk.Video.{vga_text_putc}
use vk.Io.Stream.{copy_forward}
use vk.Io.Tty.{
  Tty, Console, default_termio, erase, translate, input_char, tty_input, read_now, with_stream,
  returned, error_none, echo, echoe, icanon, verase, veof, veol, last_held,
}
use vk.Io.Tty.Lines.{held, bytes-poke_before}
use vk.Io.Tty.Typed.{text}

take-append : (cs : List ℕ) (d : ℕ) → take (length cs) (cs ++ (d ∷ [])) ≡ cs
take-append [] d = refl
take-append (x ∷ cs) d = ap (λ (l : List ℕ). x ∷ l) (take-append cs d)

-- The first part of a list that ends with one element.
bytes-init :
    (b : ℕ → ℕ) (n : ℕ) (cs : List ℕ) (d : ℕ)
    → bytes b 0 n ≡ cs ++ (d ∷ [])
    → (n ≡ length cs + 1) × (bytes b 0 (n - 1) ≡ cs) × (b (n - 1) ≡ d)
bytes-init b n cs d e =
    let len : n ≡ length cs + 1 =
      sym (length-bytes b 0 n) ∙ ap length e ∙ length-append cs (d ∷ []) in
    let less : n - 1 ≡ length cs = omega (arith, len) in
    (
      len,
      sym (take-bytes b 0 (n - 1) n (omega arith)) ∙ ap₂ take less e ∙ take-append cs d,
      ap b (omega arith)
          ∙ sym (get_or-bytes b 0 n (n - 1) (omega (arith, len)))
          ∙ ap₂ (λ (l : List ℕ) k. get_or l k 0) e less
          ∙ get_or-append cs [] d,
    )

abbrev erased : Console → Console
erased c =
    let count = (c.tty.count + (2 ^ 32 - 1)) % 2 ^ 32 in
    record c {
      tty = record c.tty {
        canon_buffer_count = c.tty.canon_buffer_count - 1;
        canon_buffer = poke c.tty.canon_buffer (c.tty.canon_buffer_count - 1) 0;
        count = count;
        buffer = poke c.tty.buffer count 0;
      };
      screen = vga_text_putc 8 0 c.screen;
    }

translate-erase : (tty : Tty) → tty.termio ≡ default_termio → translate tty 8 ≡ some 8
unfolding translate
translate-erase tty modes = rw modes refl

input-erase :
    (rounds : ℕ) (stack : ℕ → ℕ) (c : Console)
    → c.tty.termio ≡ default_termio
    → tty_input rounds stack 8 c ≡ done (erase c)
unfolding tty_input input_char
input-erase rounds stack c modes =
    let same = translate-erase c.tty modes in
    let is_erase : (8 == c.tty.termio.c_cc verase) ≡ true = rw modes refl in
    rw (same, tty_input) (rw (is_erase, input_char) refl)

erase-erased :
    (c : Console)
    → c.tty.termio ≡ default_termio
    → 0 < c.tty.canon_buffer_count
    → last_held c.tty ≢ 4
    → last_held c.tty ≢ 0
    → last_held c.tty ≢ 10
    → erase c ≡ erased c
unfolding erase
erase-erased c modes some_held not_eof not_eol not_line =
    let canonical : icanon c.tty ≡ true = rw modes refl in
    let visible : echoe c.tty ≡ true = rw modes refl in
    let echoed : echo c.tty ≡ true = rw modes refl in
    let f : (last_held c.tty == c.tty.termio.c_cc veof) ≡ false =
      rw modes (ne→== (last_held c.tty) 4 not_eof) in
    let l : (last_held c.tty == c.tty.termio.c_cc veol) ≡ false =
      rw modes (ne→== (last_held c.tty) 0 not_eol) in
    let n : (last_held c.tty == 10) ≡ false = ne→== (last_held c.tty) 10 not_line in
    let s : (c.tty.canon_buffer_count == 0) ≡ false =
      ne→== c.tty.canon_buffer_count 0 (λ z. omega (arith, z, some_held)) in
    rw (canonical, visible, s, f, l, n, echoed) refl

-- In the default modes, while a read that waits holds back characters of which the last is not 4, 0 or
-- a new line, backspace takes this last one back from the reader, takes the last byte off what the
-- terminal shows, of which there is at least one, and puts a backspace on the screen; nothing else
-- of the console changes.
pub tty_input-erase :
    (rounds : ℕ) (stack : ℕ → ℕ) (c : Console) (cs shown : List ℕ) (d e : ℕ)
    → c.tty.termio ≡ default_termio
    → held c ≡ cs ++ (d ∷ [])
    → d ≢ 4
    → d ≢ 0
    → d ≢ 10
    → text c ≡ shown ++ (e ∷ [])
    → c.tty.count < 2 ^ 32
    → (c' : Console) × (tty_input rounds stack 8 c ≡ done c')
      × (held c' ≡ cs)
      × (text c' ≡ shown)
      × (c'.screen ≡ vga_text_putc 8 0 c.screen)
      × (c'.tty.keyboard_stream ≡ c.tty.keyboard_stream)
      × (c'.signals ≡ c.signals)
tty_input-erase rounds stack c cs shown d e modes h not_eof not_eol not_line t small =
    let (n, before, last) = bytes-init c.tty.canon_buffer c.tty.canon_buffer_count cs d h in
    let (k, shown_before, _) = bytes-init c.tty.buffer c.tty.count shown e t in
    let less : (c.tty.count + (2 ^ 32 - 1)) % 2 ^ 32 ≡ c.tty.count - 1 = omega (arith, k, small) in
    (
      erased c,
      input-erase rounds stack c modes
          ∙ ap done (
              erase-erased c modes (omega (arith, n)) (λ z. not_eof (sym last ∙ z))
                (λ z. not_eol (sym last ∙ z)) (λ z. not_line (sym last ∙ z))),
      bytes-poke_before c.tty.canon_buffer (c.tty.canon_buffer_count - 1) 0 0
            (c.tty.canon_buffer_count - 1) (omega arith)
          ∙ before,
      rw less (bytes-poke_before c.tty.buffer (c.tty.count - 1) 0 0 (c.tty.count - 1) (omega arith))
          ∙ shown_before,
      refl,
      refl,
      refl,
    )

copy_forward-below : (b : ℕ → ℕ) (dest i n q : ℕ) → q < dest → copy_forward b dest i n q ≡ b q
unfolding copy_forward
copy_forward-below b dest i zero q lt = refl
copy_forward-below b dest i (suc n) q lt =
    copy_forward-below (poke b (dest + i) (b i)) dest (i + 1) n q lt ∙ ground (arith, lt)

bytes-copy_forward :
    (b : ℕ → ℕ) (dest i n a k : ℕ)
    → a + k ≤ dest
    → bytes (copy_forward b dest i n) a k ≡ bytes b a k
unfolding bytes
bytes-copy_forward b dest i n a zero le = refl
bytes-copy_forward b dest i n a (suc k) le =
    ap₂ ◌∷◌ (copy_forward-below b dest i n a (omega (arith, le)))
      (bytes-copy_forward b dest i n (a + 1) k (omega (arith, le)))

-- A read that does not wait, of at most half of the bytes that there are, leaves the same bytes in
-- front of the queue that it has delivered.
pub read_now-again :
    (m : ℕ → ℕ) (a count : ℕ) (c : Console)
    → 0 < count
    → 2 * count ≤ c.tty.keyboard_stream.count
    → (c' : Console) × (read_now m a count c
        ≡ returned error_none (copy_in m a (bytes c.tty.keyboard_stream.buffer 0 count)) c')
      × (bytes c'.tty.keyboard_stream.buffer 0 count ≡ bytes c.tty.keyboard_stream.buffer 0 count)
      × (count ≤ c'.tty.keyboard_stream.count)
unfolding read_now
read_now-again m a count c some_asked enough =
    let s = c.tty.keyboard_stream in
    let less : ltb s.count count ≡ false = ground (arith, some_asked, enough) in
    let full : (s.count == 0) ≡ false =
      ne→== s.count 0 (λ z. omega (arith, z, some_asked, enough)) in
    (
      with_stream
          (record s {
            count = s.count - count;
            buffer = copy_forward s.buffer count 0 (s.count - count);
          })
          c,
      rw (less, full) refl,
      bytes-copy_forward s.buffer count 0 (s.count - count) 0 count (omega arith),
      omega (arith, enough),
    )
