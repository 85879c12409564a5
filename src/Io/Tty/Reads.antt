-- ===== src/Io/Tty/Reads.antt =====
-- Reads from a terminal in canonical mode.
use vk.Prelude.{
  ℕ, ◌+◌, ◌-◌, ◌*◌, ◌≤◌, ◌<◌, ◌≡◌, ◌≢◌, refl, sym, ap, ◌∙◌, true, List, [], ◌∷◌, ◌++◌, length,
  length-append, ltb, length-bytes, done, arith,
}
use vk.Io.Stream.{IoStream}
use vk.Io.Stream.Fifo.{contents}
use vk.Io.Tty.{
  Console, icanon, same_group, with_stream, read_line, tty_read, TtyRead, returned, blocked, behind,
  error_none,
}
use vk.Io.Tty.Lines.{held, IsLine, Delivered, deliver-Delivered, read_line-line, read_line-waits}

-- The read delivers the text and leaves the rest.
abbrev pub Delivers : (ℕ → ℕ) → ℕ → ℕ → List ℕ → List ℕ → TtyRead → Type 0
Delivers m a count text rest r =
    (m' : ℕ → ℕ) × (c' : Console) × (r ≡ returned error_none m' c')
    × Delivered m a count text rest m' c'

-- The loop with `before` held back.
read_line-Delivers :
    (thread : ℕ × ℕ) (m : ℕ → ℕ) (a count : ℕ) (c : Console) (before line rest : List ℕ)
    → held c ≡ before
    → IsLine line
    → contents c.tty.keyboard_stream ≡ line ++ (10 ∷ rest)
    → length before + 2 * (length line + 1) ≤ count
    → Delivers m a
        (count - (length line + 1))
        (before ++ (line ++ (10 ∷ [])))
        rest
        (read_line thread m a count c)
read_line-Delivers thread m a count c before line rest h plain e enough =
    let (c', read, taken) =
      read_line-line thread m a count c line rest plain e (omega (arith, enough)) in
    let text = before ++ (line ++ (10 ∷ [])) in
    let (m', c'', delivered, result) =
      deliver-Delivered m a (count - (length line + 1)) c' text rest
        (taken.held_back ∙ ap (λ (l : List ℕ). l ++ (line ++ (10 ∷ []))) h) taken.left
        (omega (
          arith,
          enough,
          length-append before (line ++ (10 ∷ [])),
          length-append line (10 ∷ []),
        )) in
    (m', c'', read ∙ delivered, result)

-- By a process of the foreground group.
module _ (thread : ℕ × ℕ) (m : ℕ → ℕ) (a count : ℕ) (c : Console)
    (foreground : same_group c.group c.tty.foreground_processes ≡ true)
    (canonical : icanon c.tty ≡ true) where
  reads_line : tty_read thread m a count c ≡ done (read_line thread m a count c)
  unfolding tty_read
  reads_line = rw (foreground, canonical) refl

  -- For a process of the foreground group, in canonical mode, with nothing held back, `tty_read` of
  -- at least twice as many bytes as the first line from the keyboard has, its new line included,
  -- delivers exactly this line and leaves what follows it; of the bytes behind the line, as many as
  -- were asked for less the line are 0 from the beginning of the buffer on, and the other memory is
  -- unchanged.
  pub tty_read-line :
      (line rest : List ℕ)
      → held c ≡ []
      → IsLine line
      → contents c.tty.keyboard_stream ≡ line ++ (10 ∷ rest)
      → 2 * (length line + 1) ≤ count
      → (m' : ℕ → ℕ) × (c' : Console) × (tty_read thread m a count c
          ≡ done (returned error_none m' c'))
        × Delivered m a (count - (length line + 1)) (line ++ (10 ∷ [])) rest m' c'
  tty_read-line line rest none plain e enough =
      let (m', c', read, result) =
        read_line-Delivers thread m a count c [] line rest none plain e (omega (arith, enough)) in
      (m', c', reads_line ∙ ap done read, result)

  -- For a process of the foreground group, in canonical mode, with nothing held back, `tty_read` of
  -- at least as many bytes as the first line from the keyboard has, its new line included, but of
  -- less than twice as many, writes behind the buffer: the size of the rest to clear is below 0.
  pub tty_read-behind :
      (line rest : List ℕ)
      → held c ≡ []
      → IsLine line
      → contents c.tty.keyboard_stream ≡ line ++ (10 ∷ rest)
      → length line < count
      → count < 2 * (length line + 1)
      → tty_read thread m a count c ≡ done behind
  tty_read-behind line rest none plain e from below =
      let (c', read, taken) = read_line-line thread m a count c line rest plain e from in
      let n : c'.tty.canon_buffer_count ≡ length line + 1 =
        sym (length-bytes c'.tty.canon_buffer 0 c'.tty.canon_buffer_count)
        ∙ ap length (taken.held_back ∙ ap (λ (l : List ℕ). l ++ (line ++ (10 ∷ []))) none)
        ∙ length-append line (10 ∷ []) in
      let short : ltb (count - (length line + 1)) c'.tty.canon_buffer_count ≡ true =
        ground (arith, below, n) in
      reads_line ∙ ap done (read ∙ (rw short refl))

  -- For a process of the foreground group, in canonical mode, with nothing held back, `tty_read` of
  -- more bytes than there are, none of which is a new line, from a stream with any attribute, waits;
  -- and whatever stream it finds when it goes on, if the first line in it and what came before it
  -- have at most half as many bytes as were asked for, it delivers both in order and leaves what
  -- follows the line.
  pub tty_read-parts :
      (start : List ℕ)
      → held c ≡ []
      → IsLine start
      → contents c.tty.keyboard_stream ≡ start
      → c.tty.keyboard_stream.attributes ≢ 0
      → length start < count
      → (c1 : Console) × (tty_read thread m a count c ≡ done (blocked (count - length start) c1))
        × (contents c1.tty.keyboard_stream ≡ [])
        × ((s : IoStream) (line rest : List ℕ)
            → IsLine line
            → contents s ≡ line ++ (10 ∷ rest)
            → 2 * (length start + length line + 1) ≤ count
            → Delivers m a
                (count - length start - (length line + 1))
                (start ++ (line ++ (10 ∷ [])))
                rest
                (read_line thread m a (count - length start) (with_stream s c1)))
  tty_read-parts start none plain e some_set lt =
      let (c1, read, taken) = read_line-waits thread m a count c start plain e some_set lt in
      (
        c1,
        reads_line ∙ ap done read,
        taken.left,
        λ s line rest plain' e' enough.
            read_line-Delivers thread m a (count - length start) (with_stream s c1) start line rest
              (taken.held_back ∙ ap (λ (l : List ℕ). l ++ start) none) plain' e'
              (omega (arith, enough)),
      )
