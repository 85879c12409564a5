-- ===== src/Devices/Ata/Example.antt =====
-- A drive that keeps the registers that it is sent, and is busy for three reads of its status in front
-- of each block.
use vk.Prelude.{
  ℕ, suc, ◌+◌, ◌-◌, ◌*◌, ◌/◌, ◌%◌, ◌^◌, ◌<◌, ◌≡◌, ◌≢◌, ◌⊎◌, inl, inr, refl, true, false, poke,
  if◌then◌else◌, ◌==◌, Bool-cases, ==→eq, ==→ne, ne→==, arith,
}
use vk.Devices.Ata.{Ports, AtaDevice}
use vk.Devices.Ata.Words.{Phases, IsFine, IsWaiting, Follows, IsAta}

pub record Sim : Type 0 where
  pub register : ℕ → ℕ
  pub address : ℕ
  pub taken : ℕ
  pub left : ℕ
  pub wait : ℕ

abbrev pub content : ℕ → ℕ
content q = (q + q / 512) % 256

-- The drive has taken one more word, or a command.
abbrev moved : (ℕ → ℕ) → ℕ → ℕ → ℕ → Sim
moved register address taken left = record {
  register = register;
  address = address;
  taken = taken;
  left = left;
  wait = if left == 0 then 0 else if taken % 1024 == 0 then 3 else 0;
}

abbrev pub sim_ports : Ports Sim
sim_ports = record {
  inb = λ s port.
      if port == 0x1F7
      then (if s.wait == 0 then (0x50, s) else (0x80, record s { wait = s.wait - 1 }))
      else (0x50, s);
  outb = λ s port v.
      if port == 0x1F7
      then moved s.register
          (512
            * (s.register 3
                + 2 ^ 8 * s.register 4
                + 2 ^ 16 * s.register 5
                + 2 ^ 24 * (s.register 6 % 16)))
          0 (512 * s.register 2)
      else record s { register = poke s.register (port - 0x1F0) v };
  inw = λ s port. (
    content s.address + 256 * content (s.address + 1),
    moved s.register (s.address + 2) (s.taken + 2) (s.left - 2),
  );
}

abbrev pub drive : AtaDevice
drive = record { base_port = 0x1F0; control_port = 0x3F6; flags = 1 }

abbrev pub phases : Phases Sim
phases = record {
  register = λ s. s.register;
  IsIdle = λ s. (s.left ≡ 0) × (s.wait ≡ 0);
  IsBusy = λ s wait address taken left.
      (s.wait ≡ wait) × (s.address ≡ address) × (s.taken ≡ taken) × (s.left ≡ left);
  IsSending = λ s address taken left.
      (s.wait ≡ 0) × (s.address ≡ address) × (s.taken ≡ taken) × (s.left ≡ left);
}

moved-Follows :
    (register : ℕ → ℕ) (address taken left : ℕ)
    → Follows phases (moved register address taken left) address taken left
moved-Follows register address taken left = (
  λ none. (none, ground (arith, none)),
  λ some boundary. (3, omega arith, (ground (arith, some, boundary), refl, refl, refl)),
  λ some within. (ground (arith, some, within), refl, refl, refl),
)

sim-keeps :
    (s : Sim) (k v : ℕ)
    → phases.IsIdle s
    → 0 < k
    → k < 7
    → v < 256
    → phases.IsIdle (sim_ports.outb s (0x1F0 + k) v)
      × ((sim_ports.outb s (0x1F0 + k) v).register k ≡ v)
      × ((j : ℕ) → j ≢ k → (sim_ports.outb s (0x1F0 + k) v).register j ≡ s.register j)
sim-keeps s k v idle pos lt byte =
    let other : (0x1F0 + k == 0x1F7) ≡ false = ne→== (0x1F0 + k) 0x1F7 (omega (arith, lt)) in
    let number : 0x1F0 + k - 0x1F0 ≡ k = omega arith in
    rw (other, number) (idle, ground arith, λ j ne. ground (arith, ne))

sim-busy :
    (s : Sim) (wait address taken left : ℕ)
    → phases.IsBusy s wait address taken left
    → (IsFine (sim_ports.inb s 0x1F7).0
        × phases.IsSending (sim_ports.inb s 0x1F7).1 address taken left)
      ⊎ (IsWaiting (sim_ports.inb s 0x1F7).0
          × (w : ℕ) × (wait ≡ suc w)
          × phases.IsBusy (sim_ports.inb s 0x1F7).1 w address taken left)
sim-busy s wait address taken left (w, a, t, l) = elim (Bool-cases (s.wait == 0)) [
  | inl over ↦ rw over (inl ((refl, refl, refl), (==→eq s.wait 0 over, a, t, l)))
  | inr still ↦
      let ne = ==→ne s.wait 0 still in
      rw still (
        inr ((refl, refl, refl, refl), wait - 1, omega (arith, w, ne), (omega (arith, w), a, t, l)))
]

sim-idle :
    (s : Sim)
    → phases.IsIdle s
    → IsFine (sim_ports.inb s 0x1F7).0 × phases.IsIdle (sim_ports.inb s 0x1F7).1
sim-idle s (l, w) =
    let over : (s.wait == 0) ≡ true = ground (arith, w) in rw over ((refl, refl, refl), (l, w))

sim-word :
    (s : Sim) (address taken left : ℕ)
    → phases.IsSending s address taken (left + 2)
    → ((sim_ports.inw s 0x1F0).0 ≡ content address + 256 * content (address + 1))
      × Follows phases (sim_ports.inw s 0x1F0).1 (address + 2) (taken + 2) left
sim-word s address taken left (_, a, t, l) =
    let rest : s.left - 2 ≡ left = omega (arith, l) in
    rw (a, t, rest) (refl, moved-Follows s.register (address + 2) (taken + 2) left)

pub sim-IsAta : IsAta sim_ports drive content phases
sim-IsAta = record {
  byte = λ q. omega arith;
  control = λ s i. (i, λ k. refl);
  keeps = sim-keeps;
  read_multiple = λ s i selected some.
      moved-Follows s.register
        (512
          * (s.register 3
              + 2 ^ 8 * s.register 4
              + 2 ^ 16 * s.register 5
              + 2 ^ 24 * (s.register 6 % 16)))
        0 (512 * s.register 2);
  idle = sim-idle;
  busy = sim-busy;
  word = sim-word;
}

abbrev pub sim : Sim
sim = record { register = λ k. 0; address = 0; taken = 0; left = 0; wait = 0 }
