-- ===== src/Devices/Ata/Loop.antt =====
-- The loop over the words of a read.
use vk.Prelude.{
  ℕ, zero, suc, ◌+◌, ◌-◌, ◌*◌, ◌%◌, ◌≤◌, ◌<◌, ◌≡◌, inl, inr, refl, subst, true, false, ◌==◌, ltb,
  ltb→lt, Bool-cases, ==→eq, ==→ne, Outcome, done, arith,
}
use vk.Devices.Ata.{Ports, AtaDevice, ata_pio_poll_status, read_words}
use vk.Devices.Ata.Driver.{Ready, Follows-Ready, poll_status-Ready}
use vk.Devices.Ata.Words.{Phases, IsAta, Stored, step, step-Stored}

module _ {S : Type 0} (ports : Ports S) (drive : AtaDevice) (content : ℕ → ℕ) (p : Phases S)
    (ata : IsAta ports drive content p) where
  -- The words have been read to the end, at byte `i`.
  abbrev pub Read : ℕ → ℕ → ℕ → ℕ → ℕ → ℕ → (ℕ → ℕ) → Outcome (ℕ × ℕ × (ℕ → ℕ) × S) → Type 0
  Read base a offset count i left m r =
      (j : ℕ) × (m' : ℕ → ℕ) × (s' : S) × (r ≡ done (0, j, m', s'))
      × (j % 2 ≡ 0)
      × (i ≤ j)
      × (count + offset ≤ j)
      × (j ≤ i + left)
      × Ready p s' (base + j) j (i + left - j)
      × Stored content base a offset count i m m'

  Read-cons :
      (base a offset count i left w : ℕ) (m : ℕ → ℕ) (r : Outcome (ℕ × ℕ × (ℕ → ℕ) × S))
      → w ≡ content (base + i) + 256 * content (base + i + 1)
      → i < count + offset
      → 2 ≤ left
      → i % 2 ≡ 0
      → Read base a offset count (i + 2) (left - 2) (step a offset count i w m) r
      → Read base a offset count i left m r
  Read-cons base a offset count i left w m r is_word lt some_left even
        (j, m', s', e, even_j, from, end, to, now, stored) =
      let rest : i + 2 + (left - 2) - j ≡ i + left - j = omega (arith, some_left) in
      (
        j,
        m',
        s',
        e,
        even_j,
        omega (arith, from),
        end,
        omega (arith, to, some_left),
        subst (Ready p s' (base + j) j) rest now,
        step-Stored content base a offset count i (content (base + i)) (content (base + i + 1)) m lt
            (ata.byte (base + i)) (ata.byte (base + i + 1)) m' refl refl
            (subst (λ x. Stored content base a offset count (i + 2) (step a offset count i x m) m')
              is_word stored),
      )

  -- The turns of the loop.
  module _ (rounds a offset count i : ℕ) (m : ℕ → ℕ) (s : S) where
    abbrev word_read : ℕ
    word_read = (ports.inw s drive.base_port).0

    abbrev behind_word : S
    behind_word = (ports.inw s drive.base_port).1

    turn_over :
        ltb i (count + offset) ≡ false
        → read_words ports drive (suc rounds) a offset count i m s ≡ done (0, i, m, s)
    unfolding read_words
    turn_over over = rw (over, read_words) refl

    turn_on :
        ltb i (count + offset) ≡ true
        → ((i + 2) % 1024 == 0) ≡ false
        → read_words ports drive (suc rounds) a offset count i m s
          ≡ read_words ports drive rounds a offset count
              (i + 2)
              (step a offset count i word_read m)
              behind_word
    unfolding read_words
    turn_on more within = rw (more, within, read_words) refl

    turn_polled :
        ltb i (count + offset) ≡ true
        → ((i + 2) % 1024 == 0) ≡ true
        → (ata_pio_poll_status ports drive behind_word).0 ≡ 0
        → read_words ports drive (suc rounds) a offset count i m s
          ≡ read_words ports drive rounds a offset count
              (i + 2)
              (step a offset count i word_read m)
              (ata_pio_poll_status ports drive behind_word).1
    unfolding read_words
    turn_polled more boundary ready = rw (more, boundary, ready, read_words) refl

  pub read_words-Read :
      (rounds base a offset count i left : ℕ) (m : ℕ → ℕ) (s : S)
      → Ready p s (base + i) i left
      → left % 2 ≡ 0
      → i % 2 ≡ 0
      → i < count + offset + 2
      → count + offset ≤ i + left
      → count + offset + 2 ≤ i + 2 * rounds
      → Read base a offset count i left m (read_words ports drive rounds a offset count i m s)
  read_words-Read zero base a offset count i left m s now even even' inside enough fuel =
      absurd (omega (arith, fuel, inside))
  read_words-Read (suc rounds) base a offset count i left m s now even even' inside enough fuel =
      elim (Bool-cases (ltb i (count + offset))) [
        | inr over ↦
            let same : left ≡ i + left - i = omega arith in
            (
              i,
              m,
              s,
              turn_over rounds a offset count i m s over,
              even',
              omega arith,
              ground (arith, over),
              omega arith,
              subst (Ready p s (base + i) i) same now,
              record {
                new = λ q lt from. absurd (ground (arith, over, lt, from));
                old = λ q lt before. refl;
                others = λ q out. refl;
              },
            )
        | inl more ↦
            let lt = ltb→lt i (count + offset) more in
            let split : left ≡ left - 2 + 2 = omega (arith, lt, enough, even, even') in
            let (is_word, next) =
              ata.word s (base + i) i (left - 2)
                (subst (p.IsSending s (base + i) i) split (now.1 (omega (arith, split)))) in
            let w = word_read rounds a offset count i m s in
            let s1 = behind_word rounds a offset count i m s in
            let m' = step a offset count i w m in
            let moved : base + i + 2 ≡ base + (i + 2) = omega arith in
            let ih = λ (s' : S) (now' : Ready p s' (base + i + 2) (i + 2) (left - 2)).
              Read-cons base a offset count i left w m
                (read_words ports drive rounds a offset count (i + 2) m' s') is_word lt
                (omega (arith, split)) even'
                (read_words-Read rounds base a offset count (i + 2) (left - 2) m' s'
                  (subst (λ x. Ready p s' x (i + 2) (left - 2)) moved now')
                  (omega (arith, even, split)) (omega (arith, even')) (omega (arith, lt))
                  (omega (arith, enough, split)) (omega (arith, fuel))) in
            elim (Bool-cases ((i + 2) % 1024 == 0)) [
              | inl boundary ↦
                  let (ready, next') =
                    poll_status-Ready ports drive content p ata s1 (base + i + 2) (i + 2) (left - 2)
                      next (==→eq ((i + 2) % 1024) 0 boundary) in
                  rw (turn_polled rounds a offset count i m s more boundary ready)
                    (ih (ata_pio_poll_status ports drive s1).1 next')
              | inr within ↦ rw (turn_on rounds a offset count i m s more within) (
                  ih s1 (
                    Follows-Ready p s1 (base + i + 2) (i + 2) (left - 2) next
                      (λ _. ==→ne ((i + 2) % 1024) 0 within)))
            ]
      ]
