-- ===== src/Prelude/Align.antt =====
-- The macro `alignup` of util/util.h: `while(i % a) i++` over a 32-bit `i`.
use Prim.Native.Nat.{ℕ, zero, suc, ◌+◌, ◌-◌, ◌*◌, ◌/◌, ◌%◌, ◌^◌, ◌≤◌, ◌<◌}
use mathlib.Core.Path.{◌≡◌, ◌∙◌}
use mathlib.Core.Logic.{inl, inr}
use native.Mathlib.Omega.{arith}
use vk.Prelude.Tests.{◌==◌, if◌then◌else◌, Bool-cases, ==→eq, ==→ne}

-- The loop with its rounds counted; `a` rounds are enough.
unfoldable pub align_loop : ℕ → ℕ → ℕ → ℕ
align_loop zero i a = i
align_loop (suc rounds) i a =
    let next = align_loop rounds ((i + 1) % 2 ^ 32) a in if i % a == 0 then i else next

unfoldable pub align_up : ℕ → ℕ → ℕ
unfolding align_loop
align_up i a = align_loop a i a

-- What the loop computes: the next multiple of 4096, 0 past the last one.
align_loop-page :
    (rounds i : ℕ)
    → i < 2 ^ 32
    → (4096 - i % 4096) % 4096 ≤ rounds
    → align_loop rounds i 4096 ≡ (i + 4095) / 4096 * 4096 % 2 ^ 32
unfolding align_loop
align_loop-page zero i h r = omega arith
align_loop-page (suc rounds) i h r = elim (Bool-cases (i % 4096 == 0)) [
  | inl stop ↦ rw stop (omega (arith, ==→eq (i % 4096) 0 stop))
  | inr more ↦
      let ne = ==→ne (i % 4096) 0 more in
      rw more (
        align_loop-page rounds ((i + 1) % 2 ^ 32) (omega arith) (omega (arith, ne))
        ∙ omega (arith, ne))
]

align_loop-word :
    (rounds i : ℕ)
    → i < 2 ^ 32
    → (4 - i % 4) % 4 ≤ rounds
    → align_loop rounds i 4 ≡ (i + 3) / 4 * 4 % 2 ^ 32
unfolding align_loop
align_loop-word zero i h r = omega arith
align_loop-word (suc rounds) i h r = elim (Bool-cases (i % 4 == 0)) [
  | inl stop ↦ rw stop (omega (arith, ==→eq (i % 4) 0 stop))
  | inr more ↦
      let ne = ==→ne (i % 4) 0 more in
      rw more (
        align_loop-word rounds ((i + 1) % 2 ^ 32) (omega arith) (omega (arith, ne))
        ∙ omega (arith, ne))
]

-- `alignup(i, 4096)`, as the allocators of pages use it.
pub align_up-page : (i : ℕ) → i < 2 ^ 32 → align_up i 4096 ≡ (i + 4095) / 4096 * 4096 % 2 ^ 32
unfolding align_up
align_up-page i h = align_loop-page 4096 i h (omega arith)

-- `alignup(i, 4)`, as `kmalloc` uses it.
pub align_up-word : (i : ℕ) → i < 2 ^ 32 → align_up i 4 ≡ (i + 3) / 4 * 4 % 2 ^ 32
unfolding align_up
align_up-word i h = align_loop-word 4 i h (omega arith)
