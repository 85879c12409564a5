-- ===== src/Devices/Ata/Words.antt =====
-- What is known of an ATA drive through its ports, and the words that it sends.
use vk.Prelude.{
  ℕ, suc, ◌+◌, ◌*◌, ◌/◌, ◌%◌, ◌^◌, ◌≤◌, ◌<◌, ◌≡◌, ◌≢◌, ◌⊎◌, inl, inr, refl, ap, ◌∙◌, true, false,
  if◌then◌else◌, ◌==◌, ltb, ltb→lt, Bool-cases, ==→eq, arith,
}
use vk.Devices.Ata.{Ports, AtaDevice, is_master, status_bit, store}

-- The states of a drive, by what it is doing: it is idle, or it has bytes to send from an address on,
-- of which some have been taken and some are left: it is busy for at most so many reads of its status,
-- or it has them ready. `register` is the value of a register, 1 to 6.
pub record Phases (S : Type 0) : Type 1 where
  pub register : S → ℕ → ℕ
  pub IsIdle : S → Type 0
  pub IsBusy : S → ℕ → ℕ → ℕ → ℕ → Type 0
  pub IsSending : S → ℕ → ℕ → ℕ → Type 0

-- A status of a drive that is not busy, with no error and no fault.
abbrev pub IsFine : ℕ → Type 0
IsFine status =
    (status_bit status 7 ≡ false) × (status_bit status 0 ≡ false) × (status_bit status 5 ≡ false)

-- A status of a drive that is busy, with no data, no error and no fault.
abbrev pub IsWaiting : ℕ → Type 0
IsWaiting status =
    (status_bit status 7 ≡ true)
    × (status_bit status 3 ≡ false)
    × (status_bit status 0 ≡ false)
    × (status_bit status 5 ≡ false)

-- Behind a word or a command: the drive is idle if no bytes are left, and busy in front of each block
-- of two sectors, for less than 0xFFFFF reads of its status.
abbrev pub Follows : {S : Type 0} → Phases S → S → ℕ → ℕ → ℕ → Type 0
Follows p s address taken left =
    (left ≡ 0 → p.IsIdle s)
    × (left ≢ 0
        → taken % 1024 ≡ 0
        → (wait : ℕ) × (wait < 0xFFFFF) × p.IsBusy s wait address taken left)
    × (left ≢ 0 → taken % 1024 ≢ 0 → p.IsSending s address taken left)

-- The ports of a drive that holds the bytes `content`, is set to blocks of two sectors, and does not
-- fail. An idle drive keeps what is written to its registers; the command READ MULTIPLE makes it
-- send the sectors that they say; it tells by its status when it is ready; and it sends its bytes by
-- words, the lower byte first.
pub record IsAta {S : Type 0} (ports : Ports S) (drive : AtaDevice) (content : ℕ → ℕ) (p : Phases S)
    : Type 0 where
  pub byte : (q : ℕ) → content q < 256
  pub control :
      (s : S)
      → p.IsIdle s
      → p.IsIdle (ports.inb s drive.control_port).1
        × ((k : ℕ) → p.register (ports.inb s drive.control_port).1 k ≡ p.register s k)
  pub keeps :
      (s : S) (k v : ℕ)
      → p.IsIdle s
      → 0 < k
      → k < 7
      → v < 256
      → p.IsIdle (ports.outb s (drive.base_port + k) v)
        × (p.register (ports.outb s (drive.base_port + k) v) k ≡ v)
        × ((j : ℕ) → j ≢ k → p.register (ports.outb s (drive.base_port + k) v) j ≡ p.register s j)
  pub read_multiple :
      (s : S)
      → p.IsIdle s
      → p.register s 6 / 16 ≡ (if is_master drive then 14 else 15)
      → 0 < p.register s 2
      → Follows p
          (ports.outb s (drive.base_port + 7) 0xC4)
          (512
            * (p.register s 3
                + 2 ^ 8 * p.register s 4
                + 2 ^ 16 * p.register s 5
                + 2 ^ 24 * (p.register s 6 % 16)))
          0
          (512 * p.register s 2)
  pub idle :
      (s : S)
      → p.IsIdle s
      → IsFine (ports.inb s (drive.base_port + 7)).0
        × p.IsIdle (ports.inb s (drive.base_port + 7)).1
  pub busy :
      (s : S) (wait address taken left : ℕ)
      → p.IsBusy s wait address taken left
      → (IsFine (ports.inb s (drive.base_port + 7)).0
          × p.IsSending (ports.inb s (drive.base_port + 7)).1 address taken left)
        ⊎ (IsWaiting (ports.inb s (drive.base_port + 7)).0
            × (w : ℕ) × (wait ≡ suc w)
            × p.IsBusy (ports.inb s (drive.base_port + 7)).1 w address taken left)
  pub word :
      (s : S) (address taken left : ℕ)
      → p.IsSending s address taken (left + 2)
      → ((ports.inw s drive.base_port).0 ≡ content address + 256 * content (address + 1))
        × Follows p (ports.inw s drive.base_port).1 (address + 2) (taken + 2) left

-- The memory `m'` is `m` with the bytes from `i` on, of those behind the offset and before the end,
-- taken from `base` on in the drive.
pub record Stored (content : ℕ → ℕ) (base a offset count i : ℕ) (m m' : ℕ → ℕ) : Type 0 where
  pub new : (q : ℕ) → q < count → i ≤ q + offset → m' (a + q) ≡ content (base + offset + q)
  pub old : (q : ℕ) → q < count → q + offset < i → m' (a + q) ≡ m (a + q)
  pub others : (q : ℕ) → (q < a) ⊎ (a + count ≤ q) → m' q ≡ m q

-- The memory behind one word.
abbrev pub step : ℕ → ℕ → ℕ → ℕ → ℕ → (ℕ → ℕ) → ℕ → ℕ
step a offset count i w m = if ltb (i + 1) offset then m else store a offset count i w m

low_byte : (c d : ℕ) → c < 256 → (c + 256 * d) % 256 ≡ c
low_byte c d lt = omega (arith, lt)

high_byte : (c d : ℕ) → c < 256 → d < 256 → (c + 256 * d) / 256 % 256 ≡ d
high_byte c d lt lt' = omega (arith, lt, lt')

module _ (content : ℕ → ℕ) (base a offset count i c d : ℕ) (m : ℕ → ℕ) (inside : i < count + offset)
    (c_byte : c < 256) (d_byte : d < 256) where
  step-other :
      (q : ℕ)
      → (q + offset < a + i) ⊎ (a + i + 2 ≤ q + offset) ⊎ (q < a) ⊎ (a + count ≤ q)
      → step a offset count i (c + 256 * d) m q ≡ m q
  step-other q out = elim (Bool-cases (ltb (i + 1) offset)) [
    | inl before ↦ rw before refl
    | inr reached ↦ rw reached (ground (arith, out, reached, inside))
  ]

  step-low : (q : ℕ) → q + offset ≡ i → step a offset count i (c + 256 * d) m (a + q) ≡ c
  step-low q e =
      let reached : ltb (i + 1) offset ≡ false = ground (arith, e) in
      rw reached (ground (arith, e, low_byte c d c_byte))

  step-high :
      (q : ℕ) → q < count → q + offset ≡ i + 1 → step a offset count i (c + 256 * d) m (a + q) ≡ d
  step-high q lt e =
      let reached : ltb (i + 1) offset ≡ false = ground (arith, e) in
      rw reached (ground (arith, e, lt, high_byte c d c_byte d_byte))

  -- One word in front of the others.
  pub step-Stored :
      (m' : ℕ → ℕ)
      → c ≡ content (base + i)
      → d ≡ content (base + i + 1)
      → Stored content base a offset count (i + 2) (step a offset count i (c + 256 * d) m) m'
      → Stored content base a offset count i m m'
  step-Stored m' is_c is_d r = record {
    new = λ q lt from. elim (Bool-cases (ltb (q + offset) (i + 2))) [
      | inr later ↦ r.new q lt (ground (arith, later))
      | inl now ↦
          let below = ltb→lt (q + offset) (i + 2) now in
          elim (Bool-cases (q + offset == i)) [
            | inl low ↦
                let e = ==→eq (q + offset) i low in
                r.old q lt below ∙ step-low q e ∙ is_c ∙ ap content (omega (arith, e))
            | inr high ↦
                let e : q + offset ≡ i + 1 = ground (arith, high, below, from) in
                r.old q lt below ∙ step-high q lt e ∙ is_d ∙ ap content (omega (arith, e))
          ]
    ];
    old = λ q lt before.
        r.old q lt (omega (arith, before)) ∙ step-other (a + q) (inl (omega (arith, before)));
    others = λ q out.
        r.others q out
        ∙ step-other q (elim out [ inl x ↦ inr (inr (inl x)) | inr x ↦ inr (inr (inr x)) ]);
  }
