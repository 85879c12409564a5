-- ===== src/Devices/Ata/Reads.antt =====
-- A read from an ATA drive delivers the bytes of its sectors.
use vk.Prelude.{
  ℕ, zero, suc, ◌+◌, ◌-◌, ◌*◌, ◌%◌, ◌^◌, ◌≤◌, ◌<◌, ◌≡◌, ◌⊎◌, inl, inr, refl, subst, false, ◌==◌,
  ltb, leb, Bool-cases, ==→eq, ==→ne, ne→==, done, arith,
}
use vk.Devices.Ata.{
  Ports, AtaDevice, sector_count, ata_cmd_28, ata_pio_poll_status, read_words, skip_words,
  pio_transfer, ata_pio_read_flexible,
}
use vk.Devices.Ata.Loop.{read_words-Read}
use vk.Devices.Ata.Driver.{Ready, Follows-Ready, ata_cmd_28-Follows, poll_status-Ready}
use vk.Devices.Ata.Words.{Phases, Follows, IsAta, Stored}

module _ {S : Type 0} (ports : Ports S) (drive : AtaDevice) (content : ℕ → ℕ) (p : Phases S)
    (ata : IsAta ports drive content p) where
  skip_words-done :
      (rounds address i left : ℕ) (s : S)
      → Ready p s address i left
      → i % 2 ≡ 0
      → left < 512
      → (i + left) % 512 ≡ 0
      → (512 - i % 512) % 512 + 2 ≤ 2 * rounds
      → (s' : S) × (skip_words ports drive rounds i s ≡ done s') × p.IsIdle s'
  unfolding skip_words
  skip_words-done zero address i left s now even small full fuel = absurd (omega (arith, fuel))
  skip_words-done (suc rounds) address i left s now even small full fuel =
      elim (Bool-cases (i % 512 == 0)) [
        | inl whole ↦
            let z = ==→eq (i % 512) 0 whole in
            (s, rw (whole, skip_words) refl, now.0 (omega (arith, full, small, z)))
        | inr part ↦
            let ne = ==→ne (i % 512) 0 part in
            let split : left ≡ left - 2 + 2 = omega (arith, full, small, ne, even) in
            let s1 = (ports.inw s drive.base_port).1 in
            let (_, next) =
              ata.word s address i (left - 2)
                (subst (p.IsSending s address i) split (now.1 (omega (arith, split)))) in
            let (s', e, idle) =
              skip_words-done rounds (address + 2) (i + 2) (left - 2) s1
                (Follows-Ready p s1 (address + 2) (i + 2) (left - 2) next
                  (λ some. omega (arith, full, small, some)))
                (omega (arith, even)) (omega (arith, small)) (omega (arith, full, split))
                (omega (arith, fuel, ne, even)) in
            (s', rw (part, skip_words) e, idle)
      ]

  transfer_steps :
      (rounds a offset count j : ℕ) (m m' : ℕ → ℕ) (s s2 s3 : S)
      → (ata_pio_poll_status ports drive s).0 ≡ 0
      → read_words ports drive rounds a offset count 0 m (ata_pio_poll_status ports drive s).1
        ≡ done (0, j, m', s2)
      → skip_words ports drive rounds j s2 ≡ done s3
      → pio_transfer ports drive rounds a offset count m s ≡ done (0, m', s3)
  unfolding pio_transfer
  transfer_steps rounds a offset count j m m' s s2 s3 ready read skipped =
      rw (ready, read, skipped, pio_transfer) refl

  -- The end of a read whose words have been read.
  transfer-done :
      (rounds sector scount offset a count : ℕ) (m : ℕ → ℕ) (s : S)
      → Follows p s (512 * sector) 0 (512 * scount)
      → 512 * scount < count + 512
      → count + offset ≤ 512 * scount
      → count + offset + 514 ≤ 2 * rounds
      → (m' : ℕ → ℕ) × (s' : S) × (pio_transfer ports drive rounds a offset count m s
          ≡ done (0, m', s'))
        × p.IsIdle s'
        × Stored content (512 * sector) a offset count 0 m m'
  transfer-done rounds sector scount offset a count m s now tight enough fuel =
      let (ready, now1) =
        poll_status-Ready ports drive content p ata s (512 * sector) 0 (512 * scount) now refl in
      let s1 = (ata_pio_poll_status ports drive s).1 in
      let (j, m', s2, read, even, _, end, to, behind, stored) =
        read_words-Read ports drive content p ata rounds (512 * sector) a offset count 0
          (512 * scount) m s1 (subst (λ x. Ready p s1 x 0 (512 * scount)) (omega arith) now1)
          (omega arith) (omega arith) (omega arith) (omega (arith, enough)) (omega (arith, fuel)) in
      let (s3, skipped, idle) =
        skip_words-done rounds (512 * sector + j) j (0 + 512 * scount - j) s2 behind even
          (omega (arith, end, tight)) (omega (arith, to)) (omega (arith, fuel)) in
      (m', s3, transfer_steps rounds a offset count j m m' s s2 s3 ready read skipped, idle, stored)

  -- From an idle drive that holds its bytes without failing and is set to blocks of two sectors,
  -- `ata_pio_read_flexible` of some bytes that fit,
  -- with their offset, into the number of sectors that the bytes alone take, 255 at most, from a
  -- sector below 2 ^ 28 on, with a round for each word up to the end and 257 more, reports no error,
  -- puts the bytes that are at the offset from this sector on to the address, changes no other memory,
  -- and leaves the drive idle.
  pub ata_pio_read_flexible-delivers :
      (rounds sector offset a count : ℕ) (m : ℕ → ℕ) (s : S)
      → p.IsIdle s
      → 0 < count
      → count ≤ 255 * 512
      → sector < 2 ^ 28
      → count + offset ≤ 512 * sector_count count
      → count + offset + 514 ≤ 2 * rounds
      → (m' : ℕ → ℕ) × (s' : S) × (ata_pio_read_flexible ports drive rounds sector offset a count m
            s
          ≡ done (0, m', s'))
        × p.IsIdle s'
        × ((q : ℕ) → q < count → m' (a + q) ≡ content (512 * sector + offset + q))
        × ((q : ℕ) → (q < a) ⊎ (a + count ≤ q) → m' q ≡ m q)
  unfolding ata_pio_read_flexible
  ata_pio_read_flexible-delivers rounds sector offset a count m s idle some_count small low fits
        fuel =
      let n = sector_count count in
      let few : n < 256 = ground (arith, small) in
      let some_sectors : 0 < n = ground (arith, some_count) in
      let started = ata_cmd_28 ports drive sector n 0xC4 s in
      let tight : 512 * n < count + 512 = ground (arith) in
      let (m', s', done_, idle', stored) =
        transfer-done rounds sector n offset a count m started
          (ata_cmd_28-Follows ports drive content p ata s sector n idle some_sectors few low) tight
          fits fuel in
      let not_none : (count == 0) ≡ false = ne→== count 0 (λ z. omega (arith, z, some_count)) in
      let not_many : ltb 255 n ≡ false = ground (arith, few) in
      let not_high : ltb (2 ^ 32 - 1) sector ≡ false = ground (arith, low) in
      let not_out : leb (2 ^ 28) sector ≡ false = ground (arith, low) in
      (
        m',
        s',
        rw (not_none, not_many, not_high, not_out) done_,
        idle',
        λ q lt. stored.new q lt (omega arith),
        stored.others,
      )
