-- ===== src/Io/Tty/Tests.antt =====
-- A terminal as `tty_init` leaves it, with a process of group 7 in the foreground.
use vk.Prelude.{
  ℕ, zero, suc, ◌+◌, ◌-◌, ◌*◌, ◌≤◌, ◌≡◌, refl, true, List, [], ◌∷◌, ◌++◌, length, some, get_or,
  copy_in, bytes, done, arith,
}
use vk.Video.{Screen, vga_text_putc}
use vk.Io.Stream.{IoStream}
use vk.Io.Stream.Fifo.{contents}
use vk.Util.Number.{atoiindex, read_digits}
use vk.Io.Tty.{
  Console, default_termio, tty_default_buffer_size, escape, tty_input, tty_read, TtyRead, returned,
  blocked, behind, error_none, with_stream, read_line, same_group,
}
use vk.Io.Tty.Lines.{held, IsLine, Delivered}
use vk.Io.Tty.Reads.{Delivers, tty_read-behind, tty_read-parts}
use vk.Io.Tty.Typed.{IsPlain, text}
use vk.Io.Tty.Typing.{type_all, tty_read-type_all}
use vk.Io.Tty.Bounds.{Leaves, tty_read-Leaves}
use vk.Io.Tty.Modes.{tty_input-erase}

abbrev screen : Screen
screen = record {
  x = 0;
  y = 0;
  vram = λ q. 0;
  video_type = 0x20;
  video_mode = 1;
  cursor_low = 0;
  cursor_high = 0;
}

abbrev stream : List ℕ → IoStream
stream cs = record {
  buffer = copy_in (λ q. 0) 0 cs;
  count = length cs;
  buffer_size = 100;
  attributes = 13;
  waiting = [];
}

-- With what is held back, and what the keyboard has sent.
abbrev console : List ℕ → List ℕ → Console
console before cs = record {
  tty = record {
    buffer = λ q. 0x20;
    count = 20;
    buffer_size = tty_default_buffer_size;
    canon_buffer = copy_in (λ q. 0) 0 before;
    canon_buffer_count = length before;
    canon_buffer_size = 256;
    keyboard_stream = stream cs;
    termio = default_termio;
    foreground_processes = some 7;
  };
  is_current = true;
  screen = screen;
  signals = record {
    processes = λ pid. some (record { status = 1; signal_handlers = λ sig. 0 });
    signal_list = [];
    current_process = 3;
  };
  group = some 7;
  members = λ gid. some (3 ∷ 4 ∷ []);
}

abbrev ls : List ℕ
ls = b'l' ∷ b's' ∷ []

plain : (ch : ℕ) → 32 ≤ ch → IsPlain ch
plain ch h = (
  λ e. omega (arith, e, h),
  λ e. omega (arith, e, h),
  λ e. omega (arith, e, h),
  λ e. omega (arith, e, h),
  λ e. omega (arith, e, h),
  λ e. omega (arith, e, h),
  λ e. omega (arith, e, h),
  λ e. omega (arith, e, h),
  λ e. omega (arith, e, h),
)

ls-IsLine : IsLine ls
ls-IsLine = (omega arith, (omega arith, tt))

queued : contents (stream (b'l' ∷ b's' ∷ b'\n' ∷ b'x' ∷ [])) ≡ ls ++ (10 ∷ b'x' ∷ [])
unfolding contents bytes
queued = refl

queued_ls : contents (stream ls) ≡ ls
unfolding contents bytes
queued_ls = refl

queued_none : contents (stream []) ≡ []
unfolding contents bytes
queued_none = refl

held_none : (cs : List ℕ) → held (console [] cs) ≡ []
unfolding bytes
held_none cs = refl

in_front :
    (cs : List ℕ) → same_group (console [] cs).group (console [] cs).tty.foreground_processes ≡ true
unfolding same_group
in_front cs = refl

-- The two numbers of a sequence: the second one is not read, and its place is that of the first.
escape_5_3 :
    escape 9 (λ q. get_or (27 ∷ b'[' ∷ b'5' ∷ b';' ∷ b'3' ∷ b'H' ∷ []) q 0) 0 ≡ done (b'5', 5, 1, 0)
unfolding escape atoiindex read_digits
escape_5_3 = refl

abbrev line_console : Console
line_console = console [] (b'l' ∷ b's' ∷ b'\n' ∷ b'x' ∷ [])

tty_read-behind_example : tty_read (3, 1) (λ q. 1) 0x1000 5 line_console ≡ done behind
tty_read-behind_example =
    tty_read-behind (3, 1) (λ q. 1) 0x1000 5 line_console
      (in_front (b'l' ∷ b's' ∷ b'\n' ∷ b'x' ∷ [])) refl ls (b'x' ∷ [])
      (held_none (b'l' ∷ b's' ∷ b'\n' ∷ b'x' ∷ [])) ls-IsLine queued (omega arith) (omega arith)

tty_read-parts_example :
    (c1 : Console) × (tty_read (3, 1) (λ q. 1) 0x1000 80 (console [] ls)
      ≡ done (blocked (80 - 2) c1))
    × (contents c1.tty.keyboard_stream ≡ [])
    × ((s : IoStream) (line rest : List ℕ)
        → IsLine line
        → contents s ≡ line ++ (10 ∷ rest)
        → 2 * (2 + length line + 1) ≤ 80
        → Delivers
            (λ q. 1)
            0x1000
            (80 - 2 - (length line + 1))
            (ls ++ (line ++ (10 ∷ [])))
            rest
            (read_line (3, 1) (λ q. 1) 0x1000 (80 - 2) (with_stream s c1)))
tty_read-parts_example =
    tty_read-parts (3, 1) (λ q. 1) 0x1000 80 (console [] ls) (in_front ls) refl ls (held_none ls)
      ls-IsLine queued_ls (omega arith) (omega arith)

tty_read-type_all_example :
    (c1 : Console) × (type_all 2 (λ q. 0) (ls ++ (10 ∷ [])) (console [] []) ≡ done c1)
    × (text c1 ≡ text (console [] []) ++ (ls ++ (10 ∷ [])))
    × ((m' : ℕ → ℕ) × (c' : Console) × (tty_read (3, 1) (λ q. 1) 0x1000 6 c1
          ≡ done (returned error_none m' c'))
        × Delivered (λ q. 1) 0x1000 (6 - 3) (ls ++ (10 ∷ [])) [] m' c')
tty_read-type_all_example =
    tty_read-type_all 1 (λ q. 0) (3, 1) (λ q. 1) 0x1000 6 (console [] []) ls
      (plain b'l' (omega arith), (plain b's' (omega arith), tt)) ls-IsLine
      (record {
        modes = refl;
        room = omega arith;
        size = omega arith;
        stream_room = omega arith;
        stream_size = omega arith;
      })
      (in_front []) (held_none []) queued_none (omega arith)

tty_read-Leaves_example :
    (r : TtyRead) × (tty_read (3, 1) (λ q. 1) 0x1000 300 line_console ≡ done r) × Leaves r
tty_read-Leaves_example =
    tty_read-Leaves (3, 1) (λ q. 1) 0x1000 300 line_console
      (record {
        some_size = omega arith;
        small = omega arith;
        held_fits = omega arith;
        text_fits = omega arith;
      })
      (omega arith) (in_front (b'l' ∷ b's' ∷ b'\n' ∷ b'x' ∷ []))

-- The terminal shows 20 spaces.
abbrev spaces : ℕ → List ℕ
spaces zero = []
spaces (suc n) = 0x20 ∷ spaces n

some_held : held (console ls []) ≡ (b'l' ∷ []) ++ (b's' ∷ [])
unfolding bytes
some_held = refl

shown_spaces : text (console ls []) ≡ spaces 19 ++ (0x20 ∷ [])
unfolding bytes
shown_spaces = refl

tty_input-erase_example :
    (c' : Console) × (tty_input 1 (λ q. 0) 8 (console ls []) ≡ done c')
    × (held c' ≡ b'l' ∷ [])
    × (text c' ≡ spaces 19)
    × (c'.screen ≡ vga_text_putc 8 0 screen)
    × (c'.tty.keyboard_stream ≡ stream [])
    × (c'.signals ≡ (console ls []).signals)
tty_input-erase_example =
    tty_input-erase 1 (λ q. 0) (console ls []) (b'l' ∷ []) (spaces 19) b's' 0x20 refl some_held
      (omega arith) (omega arith) (omega arith) shown_spaces (omega arith)
