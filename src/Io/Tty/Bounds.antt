-- ===== src/Io/Tty/Bounds.antt =====
-- The buffers of a terminal are large enough for what is written into them.
use vk.Prelude.{
  ℕ, zero, suc, ◌+◌, ◌^◌, ◌≤◌, ◌<◌, ◌≡◌, refl, inl, inr, true, if◌then◌else◌, ◌==◌, ltb, poke, done,
  Bool-cases, arith,
}
use vk.Io.Stream.{IoStream}
use vk.Io.Stream.Fifo.{iostream_getch-cases}
use vk.Io.Tty.{
  Console, hold, deliver, with_stream, read_line, read_min, read_now, tty_read, vtime, vmin,
  unknown_error, TtyRead, returned, blocked, behind, same_group, icanon,
}

-- What is held back and what is shown lie in their buffers.
pub record IsInBuffers (c : Console) : Type 0 where
  pub some_size : 0 < c.tty.canon_buffer_size
  pub small : c.tty.canon_buffer_size < 2 ^ 31
  pub held_fits : c.tty.canon_buffer_count ≤ c.tty.canon_buffer_size
  pub text_fits : c.tty.count ≤ c.tty.buffer_size

-- What a read leaves, and that what it may yet hold back does not come to 1 GiB.
abbrev pub Leaves : TtyRead → Type 0
Leaves (returned e m c) = IsInBuffers c
Leaves (blocked left c) = IsInBuffers c × (c.tty.canon_buffer_count + left ≤ 2 ^ 30)
Leaves behind = Unit

hold-IsInBuffers :
    (ch : ℕ) (s : IoStream) (c : Console)
    → IsInBuffers c
    → c.tty.canon_buffer_count < 2 ^ 30
    → IsInBuffers (record c { tty = hold ch (record c.tty { keyboard_stream = s }) })
hold-IsInBuffers ch s c b low = record {
  some_size = ground (arith, b.some_size, b.small);
  small = ground (arith, b.small, b.held_fits, low);
  held_fits = ground (arith, b.held_fits, b.some_size, b.small);
  text_fits = b.text_fits;
}

deliver-Leaves :
    (m : ℕ → ℕ) (a count : ℕ) (c : Console) → IsInBuffers c → Leaves (deliver m a count c)
deliver-Leaves m a count c b = elim (Bool-cases (ltb count c.tty.canon_buffer_count)) [
  | inl short ↦ rw short tt
  | inr enough ↦ rw enough (record {
    some_size = b.some_size;
    small = b.small;
    held_fits = omega arith;
    text_fits = b.text_fits;
  })
]

read_line-Leaves :
    (thread : ℕ × ℕ) (m : ℕ → ℕ) (a count : ℕ) (c : Console)
    → IsInBuffers c
    → c.tty.canon_buffer_count + count ≤ 2 ^ 30
    → Leaves (read_line thread m a count c)
unfolding read_line
read_line-Leaves thread m a zero c b low = deliver-Leaves m a 0 c b
read_line-Leaves thread m a (suc count) c b low =
    elim (iostream_getch-cases thread c.tty.keyboard_stream) [
      | inl (ch, s, e) ↦
          let c' = record c { tty = hold ch (record c.tty { keyboard_stream = s }) } in
          let b' = hold-IsInBuffers ch s c b (omega (arith, low)) in
          let ended = deliver-Leaves m a count c' b' in
          let further = read_line-Leaves thread m a count c' b' (omega (arith, low)) in
          elim (Bool-cases (ch == 10)) [
            | inl end ↦ rw (e, end, read_line) ended
            | inr more ↦ rw (e, more, read_line) further
          ]
      | inr (s, e) ↦
          rw (e, read_line)
            (
              record {
                some_size = b.some_size;
                small = b.small;
                held_fits = b.held_fits;
                text_fits = b.text_fits;
              },
              low,
            )
    ]

with_stream-IsInBuffers :
    (s : IoStream) (c : Console) → IsInBuffers c → IsInBuffers (with_stream s c)
with_stream-IsInBuffers s c b = record {
  some_size = b.some_size;
  small = b.small;
  held_fits = b.held_fits;
  text_fits = b.text_fits;
}

read_min-Leaves :
    (thread : ℕ × ℕ) (m : ℕ → ℕ) (a count : ℕ) (c : Console)
    → IsInBuffers c
    → c.tty.canon_buffer_count + count ≤ 2 ^ 30
    → Leaves (read_min thread m a count c)
unfolding read_min
read_min-Leaves thread m a zero c b low = b
read_min-Leaves thread m a (suc count) c b low =
    elim (iostream_getch-cases thread c.tty.keyboard_stream) [
      | inl (ch, s, e) ↦
          let further =
            read_min-Leaves thread (poke m a ch) (a + 1) count (with_stream s c)
              (with_stream-IsInBuffers s c b) (omega (arith, low)) in
          rw (e, read_min) further
      | inr (s, e) ↦ rw (e, read_min) (with_stream-IsInBuffers s c b, low)
    ]

read_now-Leaves :
    (m : ℕ → ℕ) (a count : ℕ) (c : Console) → IsInBuffers c → Leaves (read_now m a count c)
unfolding read_now
read_now-Leaves m a count c b = elim (Bool-cases (c.tty.keyboard_stream.count == 0)) [
  | inl empty ↦ rw empty b
  | inr full ↦ rw full (record {
    some_size = b.some_size;
    small = b.small;
    held_fits = b.held_fits;
    text_fits = b.text_fits;
  })
]

-- With what a terminal holds back and shows within its buffers, the first of which is not empty and
-- below 2 GiB, a `tty_read` by a process of the foreground group, of a count that comes to at most
-- 1 GiB with what is held back, comes to a result in every mode, and when it returns or waits, what
-- is held back and shown lies within the buffers, as large as they then are; the exception is a read
-- that writes behind the buffer of the reader.
pub tty_read-Leaves :
    (thread : ℕ × ℕ) (m : ℕ → ℕ) (a count : ℕ) (c : Console)
    → IsInBuffers c
    → c.tty.canon_buffer_count + count ≤ 2 ^ 30
    → same_group c.group c.tty.foreground_processes ≡ true
    → (r : TtyRead) × (tty_read thread m a count c ≡ done r) × Leaves r
unfolding tty_read
tty_read-Leaves thread m a count c b low foreground = elim (Bool-cases (icanon c.tty)) [
  | inl canonical ↦ (
    read_line thread m a count c,
    rw (foreground, canonical) refl,
    read_line-Leaves thread m a count c b low,
  )
  | inr raw ↦ elim (Bool-cases (c.tty.termio.c_cc vtime == 0)) [
    | inr timed ↦ (returned unknown_error m c, rw (foreground, raw, timed) refl, b)
    | inl untimed ↦ elim (Bool-cases (c.tty.termio.c_cc vmin == 0)) [
      | inl now ↦ (
        read_now m a count c,
        rw (foreground, raw, untimed, now) refl,
        read_now-Leaves m a count c b,
      )
      | inr some_min ↦
          let n = if ltb count (c.tty.termio.c_cc vmin) then count else c.tty.termio.c_cc vmin in
          let le : n ≤ count = ground arith in
          (
            read_min thread m a n c,
            rw (foreground, raw, untimed, some_min) refl,
            read_min-Leaves thread m a n c b (omega (arith, low, le)),
          )
    ]
  ]
]
