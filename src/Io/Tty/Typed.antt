-- ===== src/Io/Tty/Typed.antt =====
-- Characters that are typed: into the stream of the keyboard, with their echo.
use vk.Prelude.{
  ℕ, suc, ◌+◌, ◌%◌, ◌^◌, ◌≤◌, ◌<◌, ◌≡◌, ◌≢◌, ◌⊎◌, refl, ap, ap₂, ◌∙◌, inl, inr, true, false,
  if◌then◌else◌, ◌==◌, ltb, ne→==, List, [], ◌∷◌, ◌++◌, Option, none, some, poke, bytes, copy_in,
  bytes-append, bytes-copy_in, bytes-copy_in_before, done, Bool-cases, arith,
}
use vk.Video.{Screen, vga_text_putc}
use vk.Io.Stream.{IoStream, iostream_write, wrote}
use vk.Io.Stream.Fifo.{contents, iostream_write-fits}
use vk.Io.Tty.{
  Tty, Console, default_termio, verase, veof, echo, show, append, write_allowed, tty_write,
  translate, signal_of, accept, received, input_char, tty_input, same_group, with_stream,
}
use vk.Io.Tty.Lines.{held}

-- A character that stands for itself under the default modes: none of those that `c_cc` names, no
-- carriage return, and no escape.
abbrev pub IsPlain : ℕ → Type 0
IsPlain ch =
    (ch ≢ 3)
    × (ch ≢ 4)
    × (ch ≢ 8)
    × (ch ≢ 13)
    × (ch ≢ 17)
    × (ch ≢ 19)
    × (ch ≢ 21)
    × (ch ≢ 26)
    × (ch ≢ 27)

-- The console has the default modes, and both of its buffers have room for `n` characters.
pub record IsReady (n : ℕ) (c : Console) : Type 0 where
  pub modes : c.tty.termio ≡ default_termio
  pub room : c.tty.count + n ≤ c.tty.buffer_size
  pub size : c.tty.buffer_size < 2 ^ 31
  pub stream_room : c.tty.keyboard_stream.count + n ≤ c.tty.keyboard_stream.buffer_size
  pub stream_size : c.tty.keyboard_stream.buffer_size < 2 ^ 31

pub IsReady-same : {k n : ℕ} {c : Console} → IsReady k c → n ≤ k → IsReady n c
IsReady-same r le = record {
  modes = r.modes;
  room = omega (arith, r.room, le);
  size = r.size;
  stream_room = omega (arith, r.stream_room, le);
  stream_size = r.stream_size;
}

-- The bytes that a terminal has shown.
abbrev pub text : Console → List ℕ
text c = bytes c.tty.buffer 0 c.tty.count

-- The characters in light grey, one after another.
unfoldable pub show_all : List ℕ → Screen → Screen
show_all [] s = s
show_all (ch ∷ cs) s = show_all cs (vga_text_putc ch 7 s)

-- The console `c'` is `c` behind the characters `cs`.
pub record Typed (cs : List ℕ) (c c' : Console) : Type 0 where
  pub queue : contents c'.tty.keyboard_stream ≡ contents c.tty.keyboard_stream ++ cs
  pub echoed : text c' ≡ text c ++ cs
  pub shown : c'.screen ≡ (if c.is_current then show_all cs c.screen else c.screen)
  pub current : c'.is_current ≡ c.is_current
  pub same_held : held c' ≡ held c
  pub modes : c'.tty.termio ≡ c.tty.termio
  pub group : c'.group ≡ c.group
  pub foreground : c'.tty.foreground_processes ≡ c.tty.foreground_processes

Option-cases : (x : Option ℕ) → (x ≡ none) ⊎ ((v : ℕ) × (x ≡ some v))
Option-cases none = inl refl
Option-cases (some v) = inr (v, refl)

module _ (ch : ℕ) (plain : IsPlain ch) (tty : Tty) (modes : tty.termio ≡ default_termio) where
  translate-plain : translate tty ch ≡ some ch
  unfolding translate
  translate-plain = let e = ne→== ch 13 plain.3 in rw (modes, e) refl

  signal_of-plain : signal_of tty ch ≡ none
  unfolding signal_of
  signal_of-plain =
      let c = ne→== ch 3 plain.0 in
      let u = ne→== ch 21 plain.6 in
      let q = ne→== ch 17 plain.4 in
      let s = ne→== ch 19 plain.5 in
      let z = ne→== ch 26 plain.7 in
      elim (Option-cases tty.foreground_processes) [
        | inl e ↦ rw e refl
        | inr (gid, e) ↦ rw (e, modes, c, u, q, s, z) refl
      ]

  not_erase : (ch == tty.termio.c_cc verase) ≡ false
  not_erase = rw modes (ne→== ch 8 plain.2)

  not_eof : (ch == tty.termio.c_cc veof) ≡ false
  not_eof = rw modes (ne→== ch 4 plain.1)

  echoes : echo tty ≡ true
  echoes = rw modes refl

input_char-plain :
    (rounds : ℕ) (stack : ℕ → ℕ) (ch : ℕ) (c : Console)
    → IsPlain ch
    → c.tty.termio ≡ default_termio
    → input_char rounds stack ch c ≡ accept rounds stack ch c
unfolding input_char
input_char-plain rounds stack ch c plain modes =
    let h = not_erase ch plain c.tty modes in
    let d = not_eof ch plain c.tty modes in
    let s = signal_of-plain ch plain c.tty modes in rw (h, s, d) refl

-- The console behind the echo of one character.
abbrev echoed_one : (ℕ → ℕ) → ℕ → Console → Console
echoed_one stack ch c = record c {
  tty = record c.tty {
    buffer = copy_in c.tty.buffer c.tty.count (bytes (poke stack 0 ch) 0 1);
    count = c.tty.count + 1;
  };
  screen = if c.is_current then show 1 (poke stack 0 ch) 0 c.screen else c.screen;
}

tty_write-plain :
    (rounds : ℕ) (stack : ℕ → ℕ) (ch : ℕ) (c : Console)
    → IsPlain ch
    → IsReady 1 c
    → tty_write (suc rounds) (poke stack 0 ch) 0 1 c ≡ done (0, echoed_one stack ch c)
unfolding tty_write write_allowed append
tty_write-plain rounds stack ch c plain r =
    let e = ne→== ch 27 plain.8 in
    let fits : ltb c.tty.buffer_size ((c.tty.count + 1) % 2 ^ 32) ≡ false =
      ground (arith, r.room, r.size) in
    let inside : ltb c.tty.buffer_size (c.tty.count + 1) ≡ false = ground (arith, r.room) in
    elim (Bool-cases (same_group c.group c.tty.foreground_processes)) [
      | inl same ↦ rw (same, e, fits, inside) refl
      | inr other ↦ rw (r.modes, other, e, fits, inside) refl
    ]

accept-plain :
    (rounds : ℕ) (stack : ℕ → ℕ) (ch : ℕ) (c : Console)
    → IsPlain ch
    → IsReady 1 c
    → accept (suc rounds) stack ch c
      ≡ received (iostream_write (ch ∷ []) c.tty.keyboard_stream) (echoed_one stack ch c)
unfolding accept
accept-plain rounds stack ch c plain r =
    let w = tty_write-plain rounds stack ch c plain r in
    let e = echoes ch plain c.tty r.modes in rw (w, e) refl

echoed-text :
    (b : ℕ → ℕ) (n ch : ℕ) → bytes (copy_in b n (ch ∷ [])) 0 (n + 1) ≡ bytes b 0 n ++ (ch ∷ [])
echoed-text b n ch =
    bytes-append (copy_in b n (ch ∷ [])) 0 n 1
    ∙ ap₂ ◌++◌ (bytes-copy_in_before b n (ch ∷ []) 0 n (omega arith))
        (bytes-copy_in b n (0 + n) [] (ch ∷ []) (omega arith))

run_to :
    (rounds : ℕ) (stack : ℕ → ℕ) (ch : ℕ) (c : Console) (s : IoStream)
    → iostream_write (ch ∷ []) c.tty.keyboard_stream ≡ wrote s c.tty.keyboard_stream.waiting
    → input_char rounds stack ch c
      ≡ received (iostream_write (ch ∷ []) c.tty.keyboard_stream) (echoed_one stack ch c)
    → translate c.tty ch ≡ some ch
    → tty_input rounds stack ch c ≡ done (with_stream s (echoed_one stack ch c))
unfolding tty_input
run_to rounds stack ch c s stored run same =
    rw (same, tty_input) (run ∙ ap (λ w. received w (echoed_one stack ch c)) stored)

-- One plain character.
pub tty_input-Typed :
    (rounds n : ℕ) (stack : ℕ → ℕ) (ch : ℕ) (c : Console)
    → IsPlain ch
    → IsReady (suc n) c
    → (c' : Console) × (tty_input (suc rounds) stack ch c ≡ done c')
      × Typed (ch ∷ []) c c'
      × IsReady n c'
unfolding show show_all bytes
tty_input-Typed rounds n stack ch c plain r =
    let one : IsReady 1 c = IsReady-same r (omega arith) in
    let (s, stored, queued, count, size) =
      iostream_write-fits (ch ∷ []) c.tty.keyboard_stream r.stream_size one.stream_room in
    (
      with_stream s (echoed_one stack ch c),
      run_to (suc rounds) stack ch c s stored
          (input_char-plain (suc rounds) stack ch c plain r.modes
            ∙ accept-plain rounds stack ch c plain one)
          (translate-plain ch plain c.tty r.modes),
      record {
        queue = queued.queue;
        echoed = echoed-text c.tty.buffer c.tty.count ch;
        shown = refl;
        current = refl;
        same_held = refl;
        modes = refl;
        group = refl;
        foreground = refl;
      },
      record {
        modes = r.modes;
        room = omega (arith, r.room);
        size = r.size;
        stream_room = omega (arith, r.stream_room, count, size);
        stream_size = omega (arith, r.stream_size, size);
      },
    )
