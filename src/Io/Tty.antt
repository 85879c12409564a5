-- ===== src/Io/Tty.antt =====
-- io/ttys.c: terminals, between the keyboard, the threads that read and the screen. A process group
-- is named by its number, and `none` is a null pointer to one. `krealloc` succeeds and keeps what
-- the buffer holds. `cursor_pos`, which nothing reads, is left out.
pub mod Lines
pub mod Reads
pub mod Typed
pub mod Typing
pub mod Bounds
pub mod Modes
mod Tests
use vk.Prelude.{
  ℕ, zero, suc, ◌+◌, ◌-◌, ◌*◌, ◌/◌, ◌%◌, ◌^◌, Bool, true, false, not, ◌&&◌, ◌||◌, Option, none,
  some, List, [], ◌∷◌, ◌++◌, if◌then◌else◌, ◌==◌, ltb, leb, poke, bytes, copy_in, get_or, Outcome,
  done, fatal, wild, no_fuel, ◌>>=◌,
}
use vk.Util.Number.{atoiindex}
use vk.Video.{Screen, vga_text_putc, vga_text_set_cursor, vga_text_cls, vga_text_tty_switch}
use vk.Io.Stream.{
  IoStream, iostream_getch, iostream_write, Read, got, waits, Written, wrote, copy_forward,
}
use vk.Tasking.Signal.{Signals, Process, sigcont, send_signal, send_signal_to_group}

-- The part of `struct termios` that is used; `c_cc` by index.
pub record Termios : Type 0 where
  pub c_iflag : ℕ
  pub c_lflag : ℕ
  pub c_cc : ℕ → ℕ

pub record Tty : Type 0 where
  pub buffer : ℕ → ℕ
  pub count : ℕ
  pub buffer_size : ℕ
  pub canon_buffer : ℕ → ℕ
  pub canon_buffer_count : ℕ
  pub canon_buffer_size : ℕ
  pub keyboard_stream : IoStream
  pub termio : Termios
  pub foreground_processes : Option ℕ

-- Bits of `c_iflag` and `c_lflag` (io/termios.h), by number.
abbrev pub is_set : ℕ → ℕ → Bool
is_set flags bit = flags / 2 ^ bit % 2 == 1

abbrev pub icrnl : Tty → Bool
icrnl tty = is_set tty.termio.c_iflag 1

abbrev pub igncr : Tty → Bool
igncr tty = is_set tty.termio.c_iflag 3

abbrev pub inlcr : Tty → Bool
inlcr tty = is_set tty.termio.c_iflag 5

abbrev pub istrip : Tty → Bool
istrip tty = is_set tty.termio.c_iflag 7

abbrev pub isig : Tty → Bool
isig tty = is_set tty.termio.c_lflag 0

abbrev pub icanon : Tty → Bool
icanon tty = is_set tty.termio.c_lflag 1

abbrev pub echo : Tty → Bool
echo tty = is_set tty.termio.c_lflag 3

abbrev pub echoe : Tty → Bool
echoe tty = is_set tty.termio.c_lflag 4

abbrev pub tostop : Tty → Bool
tostop tty = is_set tty.termio.c_lflag 8

-- Places in `c_cc`.
abbrev pub veof : ℕ
veof = 1

abbrev pub veol : ℕ
veol = 2

abbrev pub verase : ℕ
verase = 3

abbrev pub vintr : ℕ
vintr = 4

abbrev pub vkill : ℕ
vkill = 5

abbrev pub vmin : ℕ
vmin = 6

abbrev pub vstart : ℕ
vstart = 8

abbrev pub vstop : ℕ
vstop = 9

abbrev pub vsusp : ℕ
vsusp = 10

abbrev pub vtime : ℕ
vtime = 11

-- The signals that a terminal sends (tasking/processes/signal.h).
abbrev pub sigint : ℕ
sigint = 9

abbrev pub sigkill : ℕ
sigkill = 10

abbrev pub sigstop : ℕ
sigstop = 14

abbrev pub sigtstp : ℕ
sigtstp = 16

abbrev pub sigttin : ℕ
sigttin = 17

abbrev pub sigttou : ℕ
sigttou = 18

-- ERROR_NONE, UNKNOWN_ERROR and ERROR_IO (error/error.h)
abbrev pub error_none : ℕ
error_none = 0

abbrev pub unknown_error : ℕ
unknown_error = 1

abbrev pub error_io : ℕ
error_io = 44

-- A terminal, whether it is `current_tty`, the screen, the signals that are pending, the group of
-- the current process, and the processes of each group.
pub record Console : Type 0 where
  pub tty : Tty
  pub is_current : Bool
  pub screen : Screen
  pub signals : Signals
  pub group : Option ℕ
  pub members : ℕ → Option (List ℕ)

-- `TTY_DEFAULT_BUFFER_SIZE` and what `tty_init` sets for the modes. The buffers hold any bytes.
abbrev pub tty_default_buffer_size : ℕ
tty_default_buffer_size = 1024

abbrev pub default_termio : Termios
default_termio = record {
  c_iflag = 2 + 1;
  c_lflag = 8 + 16 + 32 + 2 + 1 + 512;
  c_cc = λ i. get_or (0 ∷ 4 ∷ 0 ∷ 8 ∷ 3 ∷ 21 ∷ 1 ∷ 28 ∷ 17 ∷ 19 ∷ 26 ∷ 0 ∷ []) i 0;
}

-- The two pointers are the same.
pub same_group : Option ℕ → Option ℕ → Bool
same_group none none = true
same_group none (some gid) = false
same_group (some gid) none = false
same_group (some gid) (some other) = gid == other

-- The `n` bytes at `a` on the screen, in light grey.
pub show : ℕ → (ℕ → ℕ) → ℕ → Screen → Screen
show zero m a screen = screen
show (suc n) m a screen = show n m (a + 1) (vga_text_putc (m a) 7 screen)

-- `handlers[SIGTTOU] != 1`. The kernel's own calls have a current process, too.
abbrev pub not_ignored : ℕ → Option Process → Bool
not_ignored sig none = true
not_ignored sig (some process) = not (process.signal_handlers sig == 1)

abbrev pub current_not_ignored : Console → Bool
current_not_ignored c = not_ignored sigttou (c.signals.processes c.signals.current_process)

-- The end of `tty_write`: the bytes go into the buffer, which doubles at most once, and onto the
-- screen. `wild` for bytes behind the buffer.
pub append : (ℕ → ℕ) → ℕ → ℕ → Console → Outcome (ℕ × Console)
unfolding show
append m a count c =
    let tty = c.tty in
    let size =
      if ltb tty.buffer_size ((tty.count + count) % 2 ^ 32)
      then tty.buffer_size * 2 % 2 ^ 32
      else tty.buffer_size in
    if ltb size (tty.count + count)
    then wild
    else done (
      error_none,
      record c {
        tty = record tty {
          buffer = copy_in tty.buffer tty.count (bytes m a count);
          count = tty.count + count;
          buffer_size = size;
        };
        screen = if c.is_current then show count m a c.screen else c.screen;
      },
    )

-- The control character of an escape sequence at `a`, its two numbers, and the places read. The
-- second number is read from the `;` on, where there is none, and its index replaces the first.
pub escape : ℕ → (ℕ → ℕ) → ℕ → Outcome (ℕ × ℕ × ℕ × ℕ)
escape rounds m a = atoiindex rounds m (a + 2) >>= λ (n, i).
    let control = m (a + 2 + i) in
    let second = atoiindex rounds m (a + 2 + i) >>= λ (k, j).
    done (m (a + 2 + j), if n == 0 then 1 else n, if k == 0 then 1 else k, j) in
    if control == b';' then second else done (control, if n == 0 then 1 else n, 1, i)

abbrev pub act : ℕ → ℕ → ℕ → Screen → Screen
act control n m screen =
    if control == b'H'
    then vga_text_set_cursor ((n + (2 ^ 32 - 1)) % 256) ((m + (2 ^ 32 - 1)) % 256) screen
    else if (control == b'J') && (n == 2)
    then vga_text_cls screen
    else screen

-- Writes by a process that may write. A round is a call of `tty_write` for the bytes behind an
-- escape sequence.
pub write_allowed : ℕ → (ℕ → ℕ) → ℕ → ℕ → Console → Outcome (ℕ × Console)
unfolding append escape
write_allowed zero m a count c = no_fuel
write_allowed (suc rounds) m a count c =
    let sequence = escape (suc rounds) m a >>= λ (control, n, k, i).
    let c' = record c { screen = act control n k c.screen } in
    let left = (count + (2 ^ 32 - 3) + (2 ^ 32 - i)) % 2 ^ 32 in
    let rest = write_allowed rounds m (a + 3 + i) left c' in
    if left == 0 then done (error_none, c') else rest in
    if (m a == 27) && (m (a + 1) == b'[') then sequence else append m a count c

pub tty_write : ℕ → (ℕ → ℕ) → ℕ → ℕ → Console → Outcome (ℕ × Console)
unfolding write_allowed same_group
tty_write rounds m a count c =
    let stopped = send_signal c.signals.current_process sigttou c.signals >>= λ s.
    done (error_io, record c { signals = s }) in
    if not (same_group c.group c.tty.foreground_processes) && tostop c.tty && current_not_ignored c
    then stopped
    else write_allowed rounds m a count c

-- `tty_switch`. The screen shows the bytes of the buffer up to the first 0, which `text` stands for.
pub tty_switch : List ℕ → Console → Console
tty_switch text c =
    if c.is_current
    then c
    else record c { is_current = true; screen = vga_text_tty_switch text c.screen }

-- What the modes of the input make of a character, or nothing.
pub translate : Tty → ℕ → Option ℕ
translate tty c =
    let c' = if istrip tty then c % 128 else c in
    let c'' = if inlcr tty && (c' == b'\n') then b'\r' else c' in
    if igncr tty && (c'' == b'\r')
    then none
    else some (if icrnl tty && (c'' == b'\r') then b'\n' else c'')

-- The last character that `tty_read` holds back, if there is one.
abbrev pub last_held : Tty → ℕ
last_held tty = tty.canon_buffer (tty.canon_buffer_count - 1)

pub erase : Console → Console
erase c =
    let tty = c.tty in
    let cc = tty.termio.c_cc in
    let held = last_held tty in
    if icanon tty && echoe tty && not (tty.canon_buffer_count == 0)
    then (if not (held == cc veof) && not (held == cc veol) && not (held == b'\n')
        then record c {
          tty = record tty {
            canon_buffer_count = tty.canon_buffer_count - 1;
            canon_buffer = poke tty.canon_buffer (tty.canon_buffer_count - 1) 0;
            count = (tty.count + (2 ^ 32 - 1)) % 2 ^ 32;
            buffer = poke tty.buffer ((tty.count + (2 ^ 32 - 1)) % 2 ^ 32) 0;
          };
          screen = if echo tty then vga_text_putc 8 0 c.screen else c.screen;
        }
        else c)
    else c

-- The signal for a character, and the character that stands for it in the echo.
abbrev pub signal_char : Tty → ℕ → Option (ℕ × ℕ)
signal_char tty c =
    let cc = tty.termio.c_cc in
    if c == cc vintr
    then some (sigint, b'C')
    else if c == cc vkill
    then some (sigkill, b'U')
    else if c == cc vstart
    then some (sigcont, b'Q')
    else if c == cc vstop
    then some (sigstop, b'S')
    else if c == cc vsusp
    then some (sigtstp, b'Z')
    else none

-- The same with the group that gets it, if the modes say so and there is one in the foreground.
pub signal_of : Tty → ℕ → Option (ℕ × ℕ × ℕ)
signal_of tty c = elim tty.foreground_processes [
  | none ↦ none
  | some gid ↦ if isig tty then map_some gid (signal_char tty c) else none
]
  where
    map_some : ℕ → Option (ℕ × ℕ) → Option (ℕ × ℕ × ℕ)
    map_some gid none = none
    map_some gid (some (sig, letter)) = some (gid, sig, letter)

-- The signal for the group, and its echo: a string that ends with a 0 behind the new line.
pub signal_group : ℕ → ℕ × ℕ × ℕ → Console → Outcome Console
unfolding tty_write
signal_group rounds (gid, sig, letter) c =
    send_signal_to_group (c.members gid) sig c.signals >>= λ s.
    let c' = record c { signals = s } in
    let echoed =
      tty_write rounds (λ q. get_or (b'^' ∷ letter ∷ b'\n' ∷ []) q 0) 0 3 c' >>= λ (_, c'').
      done c'' in
    if echo c.tty then echoed else done c'

-- The stream behind `iostream_write`. It may wait for a reader for ever.
abbrev pub received : Written → Console → Outcome Console
received (wrote s woken) c = done (record c { tty = record c.tty { keyboard_stream = s } })
received (Written.failed e) c = done c
received Written.spins c = no_fuel
received Written.overrun c = wild

-- The end of `tty_input`. `c_lflag & ICANON & ECHONL` is 0, so there is no other echo.
pub accept : ℕ → (ℕ → ℕ) → ℕ → Console → Outcome Console
unfolding tty_write
accept rounds stack ch c =
    let echoed = tty_write rounds (poke stack 0 ch) 0 1 c >>= λ (_, c'). done c' in
    (if echo c.tty then echoed else done c) >>= λ c'.
    received (iostream_write (ch ∷ []) c'.tty.keyboard_stream) c'

-- Behind the translation.
pub input_char : ℕ → (ℕ → ℕ) → ℕ → Console → Outcome Console
unfolding erase signal_of signal_group accept
input_char rounds stack ch c =
    if ch == c.tty.termio.c_cc verase then done (erase c) else elim (signal_of c.tty ch) [
      | none ↦ if ch == c.tty.termio.c_cc veof then done c else accept rounds stack ch c
      | some s ↦ signal_group rounds s c
    ]

-- `stack` is the memory from the parameter on, of which `tty_write` may look at a second byte.
pub tty_input : ℕ → (ℕ → ℕ) → ℕ → Console → Outcome Console
unfolding translate input_char
tty_input rounds stack ch c = elim (translate c.tty ch) [
  | none ↦ done c
  | some ch' ↦ input_char rounds stack ch' c
]

-- What a read comes to: an error number, with the memory; a wait, with how many characters are yet
-- to come; or bytes written behind the buffer.
pub data TtyRead : Type 0 where
  returned : ℕ → (ℕ → ℕ) → Console → TtyRead
  blocked : ℕ → Console → TtyRead
  behind : TtyRead

abbrev pub with_stream : IoStream → Console → Console
with_stream s c = record c { tty = record c.tty { keyboard_stream = s } }

-- A character behind those that are held back, in a buffer that doubles if it is full.
abbrev pub hold : ℕ → Tty → Tty
hold ch tty = record tty {
  canon_buffer_size =
      if leb tty.canon_buffer_size tty.canon_buffer_count
      then tty.canon_buffer_size * 2 % 2 ^ 32
      else tty.canon_buffer_size;
  canon_buffer = poke tty.canon_buffer tty.canon_buffer_count ch;
  canon_buffer_count = tty.canon_buffer_count + 1;
}

-- The end of a canonical read: `memcpy` of the characters, and `memset` for `count` less their
-- number, where `count` is what was not read. Below 0 it wraps around.
abbrev pub deliver : (ℕ → ℕ) → ℕ → ℕ → Console → TtyRead
deliver m a count c =
    let tty = c.tty in
    let n = tty.canon_buffer_count in
    if ltb count n
    then behind
    else returned error_none
        (λ q.
          if leb a q && ltb q (a + n)
          then tty.canon_buffer (q - a)
          else if leb (a + n) q && ltb q (a + count)
          then 0
          else m q)
        (record c {
          tty = record tty { canon_buffer_count = 0; canon_buffer = poke tty.canon_buffer 0 0 };
        })

-- The loop of a canonical read, and its end. A read that waits goes on here when it wakes.
pub read_line : ℕ × ℕ → (ℕ → ℕ) → ℕ → ℕ → Console → TtyRead
read_line thread m a zero c = deliver m a 0 c
read_line thread m a (suc count) c = elim (iostream_getch thread c.tty.keyboard_stream) [
  | got cs s ↦
      let ch = get_or cs 0 0 in
      let c' = record c { tty = hold ch (record c.tty { keyboard_stream = s }) } in
      let rest = read_line thread m a count c' in if ch == b'\n' then deliver m a count c' else rest
  | Read.failed e ↦ behind
  | waits s ↦ blocked (suc count) (with_stream s c)
]

-- The loop of a read of VMIN characters.
pub read_min : ℕ × ℕ → (ℕ → ℕ) → ℕ → ℕ → Console → TtyRead
read_min thread m a zero c = returned error_none m c
read_min thread m a (suc count) c = elim (iostream_getch thread c.tty.keyboard_stream) [
  | got cs s ↦ read_min thread (poke m a (get_or cs 0 0)) (a + 1) count (with_stream s c)
  | Read.failed e ↦ behind
  | waits s ↦ blocked (suc count) (with_stream s c)
]

-- A read that does not wait. `memcpy` goes upwards in the buffer.
pub read_now : (ℕ → ℕ) → ℕ → ℕ → Console → TtyRead
read_now m a count c =
    let s = c.tty.keyboard_stream in
    let countmin = if ltb s.count count then s.count else count in
    let s' = record s {
      count = s.count - countmin;
      buffer = copy_forward s.buffer countmin 0 (s.count - countmin);
    } in
    if s.count == 0
    then returned error_none m c
    else returned error_none (copy_in m a (bytes s.buffer 0 countmin)) (with_stream s' c)

pub tty_read : ℕ × ℕ → (ℕ → ℕ) → ℕ → ℕ → Console → Outcome TtyRead
unfolding read_line read_min read_now same_group
tty_read thread m a count c =
    let cc = c.tty.termio.c_cc in
    let refused = send_signal c.signals.current_process sigttin c.signals >>= λ s.
    done (returned error_io m (record c { signals = s })) in
    let countmin = if ltb count (cc vmin) then count else cc vmin in
    if not (same_group c.group c.tty.foreground_processes)
    then refused
    else if icanon c.tty
    then done (read_line thread m a count c)
    else if not (cc vtime == 0)
    then done (returned unknown_error m c)
    else if cc vmin == 0
    then done (read_now m a count c)
    else done (read_min thread m a countmin c)
