-- ===== src/Devices/Ata/Driver.antt =====
-- The command and the poll, against the ports of the drive.
use vk.Prelude.{
  ℕ, zero, suc, ◌+◌, ◌*◌, ◌/◌, ◌%◌, ◌^◌, ◌<◌, ◌≡◌, ◌≢◌, inl, inr, refl, sym, ap, subst, ◌∙◌, Bool,
  true, false, if◌then◌else◌, ◌==◌, Bool-cases, ==→eq, ==→ne, ne→==, arith,
}
use vk.Devices.Ata.{
  Ports, AtaDevice, is_master, is_waiting, status_bit, error_disk_unreachable, error_disk_busy,
  ata_io_wait, ata_cmd_28, poll, ata_pio_poll_status,
}
use vk.Devices.Ata.Words.{Phases, IsFine, IsWaiting, Follows, IsAta}

-- Ready for the words that are left, or idle if there are none.
abbrev pub Ready : {S : Type 0} → Phases S → S → ℕ → ℕ → ℕ → Type 0
Ready p s address taken left =
    (left ≡ 0 → p.IsIdle s) × (left ≢ 0 → p.IsSending s address taken left)

pub Follows-Ready :
    {S : Type 0} (p : Phases S) (s : S) (address taken left : ℕ)
    → Follows p s address taken left
    → (left ≢ 0 → taken % 1024 ≢ 0)
    → Ready p s address taken left
Follows-Ready p s address taken left (over, blocks, within) inside =
    (over, λ ne. within ne (inside ne))

module _ {S : Type 0} (ports : Ports S) (drive : AtaDevice) (content : ℕ → ℕ) (p : Phases S)
    (ata : IsAta ports drive content p) where
  io_wait-IsIdle :
      (s : S)
      → p.IsIdle s
      → p.IsIdle (ata_io_wait ports drive s)
        × ((k : ℕ) → p.register (ata_io_wait ports drive s) k ≡ p.register s k)
  unfolding ata_io_wait
  io_wait-IsIdle s i =
      let (i1, r1) = ata.control s i in
      let s1 = (ports.inb s drive.control_port).1 in
      let (i2, r2) = ata.control s1 i1 in
      let s2 = (ports.inb s1 drive.control_port).1 in
      let (i3, r3) = ata.control s2 i2 in
      let s3 = (ports.inb s2 drive.control_port).1 in
      let (i4, r4) = ata.control s3 i3 in (i4, λ k. r4 k ∙ r3 k ∙ r2 k ∙ r1 k)

  device_high :
      (b : Bool) (n : ℕ) → n < 16 → ((if b then 0xE0 else 0xF0) + n) / 16 ≡ (if b then 14 else 15)
  device_high true n lt = omega (arith, lt)
  device_high false n lt = omega (arith, lt)

  device_low : (b : Bool) (n : ℕ) → n < 16 → ((if b then 0xE0 else 0xF0) + n) % 16 ≡ n
  device_low true n lt = omega (arith, lt)
  device_low false n lt = omega (arith, lt)

  device_byte : (b : Bool) (n : ℕ) → n < 16 → (if b then 0xE0 else 0xF0) + n < 256
  device_byte true n lt = omega (arith, lt)
  device_byte false n lt = omega (arith, lt)

  -- An idle drive sends the sectors that it has been asked for.
  pub ata_cmd_28-Follows :
      (s : S) (sector scount : ℕ)
      → p.IsIdle s
      → 0 < scount
      → scount < 256
      → sector < 2 ^ 28
      → Follows p (ata_cmd_28 ports drive sector scount 0xC4 s) (512 * sector) 0 (512 * scount)
  unfolding ata_cmd_28
  ata_cmd_28-Follows s sector scount i some few low =
      let top = sector / 2 ^ 24 % 16 in
      let top_small : top < 16 = omega arith in
      let dev = (if is_master drive then 0xE0 else 0xF0) + top in
      let s0 = ports.outb s (drive.base_port + 6) dev in
      let (i0, r0, o0) =
        ata.keeps s 6 dev i (omega arith) (omega arith)
          (device_byte (is_master drive) top top_small) in
      let s1 = ata_io_wait ports drive s0 in
      let (i1, o1) = io_wait-IsIdle s0 i0 in
      let s2 = ports.outb s1 (drive.base_port + 1) 0 in
      let (i2, r2, o2) = ata.keeps s1 1 0 i1 (omega arith) (omega arith) (omega arith) in
      let s3 = ports.outb s2 (drive.base_port + 2) scount in
      let (i3, r3, o3) = ata.keeps s2 2 scount i2 (omega arith) (omega arith) few in
      let s4 = ports.outb s3 (drive.base_port + 3) (sector % 256) in
      let (i4, r4, o4) =
        ata.keeps s3 3 (sector % 256) i3 (omega arith) (omega arith) (omega arith) in
      let s5 = ports.outb s4 (drive.base_port + 4) (sector / 2 ^ 8 % 256) in
      let (i5, r5, o5) =
        ata.keeps s4 4 (sector / 2 ^ 8 % 256) i4 (omega arith) (omega arith) (omega arith) in
      let s6 = ports.outb s5 (drive.base_port + 5) (sector / 2 ^ 16 % 256) in
      let (i6, r6, o6) =
        ata.keeps s5 5 (sector / 2 ^ 16 % 256) i5 (omega arith) (omega arith) (omega arith) in
      let e2 : p.register s6 2 ≡ scount =
        o6 2 (omega arith) ∙ o5 2 (omega arith) ∙ o4 2 (omega arith) ∙ r3 in
      let e3 : p.register s6 3 ≡ sector % 256 = o6 3 (omega arith) ∙ o5 3 (omega arith) ∙ r4 in
      let e4 : p.register s6 4 ≡ sector / 2 ^ 8 % 256 = o6 4 (omega arith) ∙ r5 in
      let e6 : p.register s6 6 ≡ dev =
        o6 6 (omega arith)
        ∙ o5 6 (omega arith)
        ∙ o4 6 (omega arith)
        ∙ o3 6 (omega arith)
        ∙ o2 6 (omega arith)
        ∙ o1 6
        ∙ r0 in
      let l6 : p.register s6 6 % 16 ≡ top =
        ap (λ x. x % 16) e6 ∙ device_low (is_master drive) top top_small in
      let address : 512
            * (p.register s6 3
                + 2 ^ 8 * p.register s6 4
                + 2 ^ 16 * p.register s6 5
                + 2 ^ 24 * (p.register s6 6 % 16))
          ≡ 512 * sector =
        omega (arith, e3, e4, r6, l6, low) in
      let s7 = ports.outb s6 (drive.base_port + 7) 0xC4 in
      subst (λ x. Follows p s7 x 0 (512 * scount)) address
        (subst
          (λ x.
            Follows p s7
              (512
                * (p.register s6 3
                    + 2 ^ 8 * p.register s6 4
                    + 2 ^ 16 * p.register s6 5
                    + 2 ^ 24 * (p.register s6 6 % 16)))
              0 x)
          (ap (λ x. 512 * x) e2)
          (ata.read_multiple s6 i6
            (ap (λ x. x / 16) e6 ∙ device_high (is_master drive) top top_small)
            (omega (arith, e2, some))))

  fine-is_waiting : (status : ℕ) → IsFine status → is_waiting status ≡ false
  fine-is_waiting status f = rw f.0 refl

  waiting-is_waiting : (status : ℕ) → IsWaiting status → is_waiting status ≡ true
  waiting-is_waiting status w = rw (w.0, w.1, w.2, w.3) refl

  -- What the loop of the poll ends with: some of its times left, and a status without an error.
  abbrev Ends : (S → Type 0) → ℕ × ℕ × S → Type 0
  Ends P r = (0 < r.0) × IsFine r.1 × P r.2

  poll-fine :
      (rounds status : ℕ) (s : S)
      → IsFine status
      → poll ports drive (suc rounds) status s ≡ (suc rounds, status, s)
  unfolding poll
  poll-fine rounds status s f = let stop = fine-is_waiting status f in rw (stop, poll) refl

  poll-waiting :
      (rounds status : ℕ) (s : S)
      → IsWaiting status
      → poll ports drive (suc rounds) status s
        ≡ poll ports drive rounds
            (ports.inb s (drive.base_port + 7)).0
            (ports.inb s (drive.base_port + 7)).1
  unfolding poll
  poll-waiting rounds status s w = let again = waiting-is_waiting status w in rw (again, poll) refl

  fine-Ends :
      (P : S → Type 0) (rounds status : ℕ) (s : S)
      → IsFine status
      → P s
      → Ends P (poll ports drive (suc rounds) status s)
  fine-Ends P rounds status s fine h =
      subst (Ends P) (sym (poll-fine rounds status s fine)) (omega arith, fine, h)

  poll-Sending :
      (rounds wait status address taken left : ℕ) (s : S)
      → IsWaiting status
      → p.IsBusy s wait address taken left
      → wait + 1 < rounds
      → Ends (λ s'. p.IsSending s' address taken left) (poll ports drive rounds status s)
  poll-Sending zero wait status address taken left s w b lt = absurd (omega (arith, lt))
  poll-Sending (suc zero) wait status address taken left s w b lt = absurd (omega (arith, lt))
  poll-Sending (suc (suc rounds)) wait status address taken left s w b lt =
      subst (Ends (λ s'. p.IsSending s' address taken left))
        (sym (poll-waiting (suc rounds) status s w))
        (elim (ata.busy s wait address taken left b) [
          | inl (fine, sending) ↦
              fine-Ends (λ s'. p.IsSending s' address taken left) rounds
                (ports.inb s (drive.base_port + 7)).0 (ports.inb s (drive.base_port + 7)).1 fine
                sending
          | inr (still, fewer, e, b') ↦
              poll-Sending (suc rounds) fewer (ports.inb s (drive.base_port + 7)).0 address taken
                left (ports.inb s (drive.base_port + 7)).1 still b' (omega (arith, lt, e))
        ])

  abbrev Polled : (S → Type 0) → S → Type 0
  Polled P s = Ends P (
      poll ports drive 0xFFFFF (ports.inb s (drive.base_port + 7)).0
        (ports.inb s (drive.base_port + 7)).1)

  no_error :
      (P : S → Type 0) (r : ℕ × ℕ × S)
      → Ends P r
      → (if status_bit r.1 5
          then error_disk_unreachable
          else if r.0 == 0
          then error_disk_busy
          else if status_bit r.1 0
          then error_disk_unreachable
          else 0)
        ≡ 0
  no_error P (times, status, s) (some, fine, h) =
      let in_time : (times == 0) ≡ false = ne→== times 0 (omega (arith, some)) in
      rw (fine.2, in_time, fine.1) refl

  Polled-settles :
      (P : S → Type 0) (s : S)
      → Polled P s
      → ((ata_pio_poll_status ports drive s).0 ≡ 0) × P (ata_pio_poll_status ports drive s).1
  unfolding ata_pio_poll_status
  Polled-settles P s ends = (
    no_error P
        (poll ports drive 0xFFFFF (ports.inb s (drive.base_port + 7)).0
          (ports.inb s (drive.base_port + 7)).1)
        ends,
    ends.2,
  )

  idle-Polled : (s : S) → p.IsIdle s → Polled p.IsIdle s
  idle-Polled s i =
      let (fine, i') = ata.idle s i in
      fine-Ends p.IsIdle 0xFFFFE (ports.inb s (drive.base_port + 7)).0
        (ports.inb s (drive.base_port + 7)).1 fine i'

  busy-Polled :
      (s : S) (wait address taken left : ℕ)
      → p.IsBusy s wait address taken left
      → wait < 0xFFFFF
      → Polled (λ s'. p.IsSending s' address taken left) s
  busy-Polled s wait address taken left b lt = elim (ata.busy s wait address taken left b) [
    | inl (fine, sending) ↦
        fine-Ends (λ s'. p.IsSending s' address taken left) 0xFFFFE
          (ports.inb s (drive.base_port + 7)).0 (ports.inb s (drive.base_port + 7)).1 fine sending
    | inr (still, fewer, e, b') ↦
        poll-Sending 0xFFFFF fewer (ports.inb s (drive.base_port + 7)).0 address taken left
          (ports.inb s (drive.base_port + 7)).1 still b' (less wait fewer lt e)
  ]
    where
      less : (a b : ℕ) → a < 0xFFFFF → a ≡ suc b → b + 1 < 0xFFFFF
      less a b lt e = omega (arith, lt, e)

  -- At the beginning of a block a poll reports no error and finds the drive ready.
  pub poll_status-Ready :
      (s : S) (address taken left : ℕ)
      → Follows p s address taken left
      → taken % 1024 ≡ 0
      → ((ata_pio_poll_status ports drive s).0 ≡ 0)
        × Ready p (ata_pio_poll_status ports drive s).1 address taken left
  poll_status-Ready s address taken left (over, blocks, within) boundary =
      elim (Bool-cases (left == 0)) [
        | inl none ↦
            let z = ==→eq left 0 none in
            let (e, i) = Polled-settles p.IsIdle s (idle-Polled s (over z)) in
            (e, (λ _. i, λ ne. absurd (ne z)))
        | inr more ↦
            let ne = ==→ne left 0 more in
            let (wait, lt, b) = blocks ne boundary in
            let (e, sending) =
              Polled-settles (λ s'. p.IsSending s' address taken left) s
                (busy-Polled s wait address taken left b lt) in
            (e, (λ z. absurd (ne z), λ _. sending))
      ]
