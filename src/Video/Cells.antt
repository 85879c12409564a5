-- ===== src/Video/Cells.antt =====
-- Which bytes the loops and the copy change.
use vk.Prelude.{
  poke, ℕ, zero, suc, ◌+◌, ◌-◌, ◌*◌, ◌%◌, ◌≡◌, ◌&&◌, if◌then◌else◌, ◌==◌, leb, ltb, arith, ◌∙◌,
}
use vk.Video.{fill}

-- `fill` sets the cells of its rounds, and no other byte.
pub fill_lem :
    (rounds i c color q : ℕ) (vram : ℕ → ℕ)
    → fill rounds i c color vram q ≡ (
        if leb i q && ltb q (i + 2 * rounds)
        then (if (q - i) % 2 == 0 then c else color)
        else vram q)
unfolding fill
fill_lem zero i c color q vram = ground arith
fill_lem (suc rounds) i c color q vram =
    fill_lem rounds (i + 2) c color q (poke (poke vram i c) (i + 1) color) ∙ ground arith
