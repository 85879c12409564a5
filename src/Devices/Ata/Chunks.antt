-- ===== src/Devices/Ata/Chunks.antt =====
-- Reads of any length, which are split into chunks.
use vk.Prelude.{
  ℕ, zero, suc, ◌+◌, ◌-◌, ◌*◌, ◌/◌, ◌%◌, ◌^◌, ◌≤◌, ◌<◌, ◌≡◌, ◌⊎◌, inl, inr, refl, ap, subst, ◌∙◌,
  true, false, ltb, ltb→lt, Bool-cases, Outcome, done, arith,
}
use vk.Devices.Ata.{
  Ports, AtaDevice, sector_count, ata_pio_read_flexible, attempts, read_chunks, ata_read_polling,
}
use vk.Devices.Ata.Words.{Phases, IsAta}
use vk.Devices.Ata.Reads.{ata_pio_read_flexible-delivers}

module _ {S : Type 0} (ports : Ports S) (drive : AtaDevice) (content : ℕ → ℕ) (p : Phases S)
    (ata : IsAta ports drive content p) where
  -- The bytes from `base` on are at `a`, the other memory is as it was, there was no error, and the
  -- drive is idle.
  abbrev pub Delivers : ℕ → ℕ → ℕ → (ℕ → ℕ) → Outcome (ℕ × (ℕ → ℕ) × S) → Type 0
  Delivers base a count m r =
      (m' : ℕ → ℕ) × (s' : S) × (r ≡ done (0, m', s'))
      × p.IsIdle s'
      × ((q : ℕ) → q < count → m' (a + q) ≡ content (base + q))
      × ((q : ℕ) → (q < a) ⊎ (a + count ≤ q) → m' q ≡ m q)

  once :
      (rounds sector offset a count again : ℕ) (m m' : ℕ → ℕ) (s s' : S)
      → ata_pio_read_flexible ports drive rounds sector offset a count m s ≡ done (0, m', s')
      → attempts ports drive rounds sector offset a count again m s ≡ done (0, m', s')
  unfolding attempts
  once rounds sector offset a count again m m' s s' e = rw (e, attempts) refl

  attempts-Delivers :
      (rounds sector offset a count again : ℕ) (m : ℕ → ℕ) (s : S)
      → p.IsIdle s
      → 0 < count
      → count ≤ 255 * 512
      → sector < 2 ^ 28
      → count + offset ≤ 512 * sector_count count
      → count + offset + 514 ≤ 2 * rounds
      → Delivers
          (512 * sector + offset)
          a
          count
          m
          (attempts ports drive rounds sector offset a count again m s)
  attempts-Delivers rounds sector offset a count again m s idle some_count small low fits fuel =
      let (m', s', e, idle', new, others) =
        ata_pio_read_flexible-delivers ports drive content p ata rounds sector offset a count m s
          idle some_count small low fits fuel in
      (m', s', once rounds sector offset a count again m m' s s' e, idle', new, others)

  last_chunk :
      (chunks rounds sector offset a count : ℕ) (m : ℕ → ℕ) (s : S)
      → count ≤ 255 * 512
      → read_chunks ports drive (suc chunks) rounds sector offset a count m s
        ≡ attempts ports drive rounds sector offset a count (255 * 512) m s
  unfolding read_chunks
  last_chunk chunks rounds sector offset a count m s small =
      let last : ltb (255 * 512) count ≡ false = ground (arith, small) in
      rw (last, read_chunks) refl

  first_chunk :
      (chunks rounds sector offset a count : ℕ) (m m' : ℕ → ℕ) (s s' : S)
      → 255 * 512 < count
      → attempts ports drive rounds sector offset a (255 * 512) (255 * 512) m s ≡ done (0, m', s')
      → read_chunks ports drive (suc chunks) rounds sector offset a count m s
        ≡ read_chunks ports drive chunks rounds
            (sector + 255)
            0
            (a + 255 * 512)
            (count - 255 * 512)
            m'
            s'
  unfolding read_chunks
  first_chunk chunks rounds sector offset a count m m' s s' big e =
      let more : ltb (255 * 512) count ≡ true = ground (arith, big) in
      rw (more, e, read_chunks) refl

  -- Two chunks one behind the other.
  Delivers-append :
      (base a n count : ℕ) (m m' : ℕ → ℕ) (r : Outcome (ℕ × (ℕ → ℕ) × S))
      → n < count
      → ((q : ℕ) → q < n → m' (a + q) ≡ content (base + q))
      → ((q : ℕ) → (q < a) ⊎ (a + n ≤ q) → m' q ≡ m q)
      → Delivers (base + n) (a + n) (count - n) m' r
      → Delivers base a count m r
  Delivers-append base a n count m m' r big new others (m'', s'', e, idle, new', others') = (
    m'',
    s'',
    e,
    idle,
    λ q lt. elim (Bool-cases (ltb q n)) [
      | inl here ↦
          let below = ltb→lt q n here in others' (a + q) (inl (omega (arith, below))) ∙ new q below
      | inr later ↦
          let from : n ≤ q = ground (arith, later) in
          ap m'' (omega (arith, from))
          ∙ new' (q - n) (omega (arith, lt, from))
          ∙ ap content (omega (arith, from))
    ],
    λ q out. elim out [
      | inl before ↦ others' q (inl (omega (arith, before))) ∙ others q (inl before)
      | inr after ↦
          others' q (inr (omega (arith, after, big))) ∙ others q (inr (omega (arith, after, big)))
    ],
  )

  read_chunks-Delivers :
      (chunks rounds sector a count : ℕ) (m : ℕ → ℕ) (s : S)
      → p.IsIdle s
      → 0 < count
      → 512 * sector + count ≤ 2 ^ 37
      → count ≤ 255 * 512 * chunks
      → 65537 ≤ rounds
      → Delivers
          (512 * sector)
          a
          count
          m
          (read_chunks ports drive chunks rounds sector 0 a count m s)
  read_chunks-Delivers zero rounds sector a count m s idle some_count low enough fuel =
      absurd (omega (arith, some_count, enough))
  read_chunks-Delivers (suc chunks) rounds sector a count m s idle some_count low enough fuel =
      elim (Bool-cases (ltb (255 * 512) count)) [
        | inr small ↦
            let le : count ≤ 255 * 512 = ground (arith, small) in
            let (m', s', e, idle', new, others) =
              attempts-Delivers rounds sector 0 a count (255 * 512) m s idle some_count le
                (omega (arith, low, some_count)) (ground arith) (omega (arith, le, fuel)) in
            (
              m',
              s',
              last_chunk chunks rounds sector 0 a count m s le ∙ e,
              idle',
              λ q lt. new q lt ∙ ap content (omega arith),
              others,
            )
        | inl more ↦
            let big = ltb→lt (255 * 512) count more in
            let (m', s', e, idle', new, others) =
              attempts-Delivers rounds sector 0 a (255 * 512) (255 * 512) m s idle (omega arith)
                (omega arith) (omega (arith, low, some_count)) (omega arith)
                (omega (arith, fuel)) in
            let moved : 512 * (sector + 255) ≡ 512 * sector + 255 * 512 = omega arith in
            let ih =
              read_chunks-Delivers chunks rounds (sector + 255) (a + 255 * 512) (count - 255 * 512)
                m' s' idle' (omega (arith, big)) (omega (arith, low, big)) (omega (arith, enough))
                fuel in
            let (m'', s'', e', idle'', new', others') =
              Delivers-append (512 * sector) a (255 * 512) count m m'
                (read_chunks ports drive chunks rounds (sector + 255) 0 (a + 255 * 512)
                  (count - 255 * 512) m' s')
                big (λ q lt. new q lt ∙ ap content (omega arith)) others
                (subst
                  (λ b. Delivers b (a + 255 * 512) (count - 255 * 512) m' (
                    read_chunks ports drive chunks rounds (sector + 255) 0 (a + 255 * 512)
                      (count - 255 * 512) m' s'))
                  moved ih) in
            (
              m'',
              s'',
              first_chunk chunks rounds sector 0 a count m m' s s' big e ∙ e',
              idle'',
              new',
              others',
            )
      ]

  -- From an idle drive that holds its bytes without failing and is set to blocks of two sectors, a
  -- polling read of some bytes, with an offset that
  -- is a multiple of 512, that ends within 2 ^ 28 sectors, with a chunk for each 255 sectors and
  -- 65537 rounds for each, delivers all bytes from the sector and the offset on, across all chunks,
  -- without an error, changes no other memory, and leaves the drive idle.
  pub ata_read_polling-Delivers :
      (chunks rounds sector offset a count : ℕ) (m : ℕ → ℕ) (s : S)
      → p.IsIdle s
      → 0 < count
      → offset % 512 ≡ 0
      → 512 * sector + offset + count ≤ 2 ^ 37
      → count ≤ 255 * 512 * chunks
      → 65537 ≤ rounds
      → Delivers
          (512 * sector + offset)
          a
          count
          m
          (ata_read_polling ports drive chunks rounds sector offset a count m s)
  unfolding ata_read_polling
  ata_read_polling-Delivers chunks rounds sector offset a count m s idle some_count whole low enough
        fuel =
      let base : 512 * (sector + offset / 512) ≡ 512 * sector + offset = omega (arith, whole) in
      rw whole (
        subst
          (λ b.
            Delivers b a count m
              (read_chunks ports drive chunks rounds (sector + offset / 512) 0 a count m s))
          base
          (read_chunks-Delivers chunks rounds (sector + offset / 512) a count m s idle some_count
            (omega (arith, low, whole)) enough fuel))
