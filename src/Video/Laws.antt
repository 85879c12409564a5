-- ===== src/Video/Laws.antt =====
-- The cursor stays on the screen, and what is written stays inside the video memory.
use vk.Prelude.{
  ℕ, ◌+◌, ◌-◌, ◌%◌, ◌≤◌, ◌<◌, ◌≡◌, refl, inl, inr, Bool-cases, false, if◌then◌else◌, ◌==◌, leb, ltb,
  arith, ◌∙◌, ap,
}
use vk.Video.{
  Screen, shift_up, hidden, put, end_line, end_screen, vga_text_scroll_up, vga_text_update_cursor,
  vga_text_putc, vga_mem_size,
}
use vk.Video.Cells.{fill_lem}

pub record IsOnScreen (s : Screen) : Type 0 where
  pub column : s.x < 80
  pub line : s.y < 25

-- Behind the special cases of `vga_text_putc`.
record IsNear (s : Screen) : Type 0 where
  column : s.x ≤ 80
  line : s.y ≤ 25
  corner : s.y ≡ 25 → s.x < 80

put-IsNear : (c color : ℕ) (s : Screen) → IsOnScreen s → IsNear (put c color s)
unfolding put
put-IsNear c color s v = ground arith

put-hidden : (c color : ℕ) (s : Screen) → hidden (put c color s) ≡ hidden s
unfolding put
put-hidden c color s = ground arith

-- No byte behind the video memory changes.
SameBehind : Screen → Screen → Type 0
SameBehind s t = (q : ℕ) → vga_mem_size ≤ q → t.vram q ≡ s.vram q

put-SameBehind : (c color : ℕ) (s : Screen) → IsOnScreen s → SameBehind s (put c color s)
unfolding put SameBehind
put-SameBehind c color s v q h = ground arith

end_line-near : (s : Screen) → IsNear s → ((end_line s).x < 80) × ((end_line s).y ≤ 25)
unfolding end_line
end_line-near s n = ground arith

-- What scrolling makes of the video memory: each line is the one below it, the last one is blank.
pub scrolled : (ℕ → ℕ) → ℕ → ℕ
scrolled vram q =
    if ltb q 3840
    then vram (q + 160)
    else if ltb q 4000
    then (if q % 2 == 0 then 0 else 7)
    else vram q

-- `vga_text_scroll_up` of a screen that shows text moves each line up by one, blanks the last one,
-- changes no byte behind the video memory, and takes the cursor up by one line if it is not on the
-- first.
pub vga_text_scroll_up-scrolled :
    (s : Screen)
    → hidden s ≡ false
    → ((q : ℕ) → (vga_text_scroll_up s).vram q ≡ scrolled s.vram q)
      × ((vga_text_scroll_up s).y ≡ s.y - 1)
      × ((vga_text_scroll_up s).x ≡ s.x)
unfolding vga_text_scroll_up scrolled
vga_text_scroll_up-scrolled s h =
    rw h (λ q. fill_lem 80 3840 0 7 q (shift_up s.vram) ∙ ground arith, ground arith, refl)

end_screen-IsOnScreen :
    (s : Screen) → s.x < 80 → s.y ≤ 25 → hidden s ≡ false → IsOnScreen (end_screen s)
unfolding end_screen
end_screen-IsOnScreen s x y h = ground (arith, vga_text_scroll_up-scrolled s h)

end_screen-SameBehind : (s : Screen) → hidden s ≡ false → SameBehind s (end_screen s)
unfolding end_screen SameBehind scrolled
end_screen-SameBehind s h q b = ground (arith, (vga_text_scroll_up-scrolled s h).0 q)

end_line-same : (s : Screen) → ((end_line s).vram ≡ s.vram) × (hidden (end_line s) ≡ hidden s)
unfolding end_line
end_line-same s = elim (Bool-cases (leb 80 s.x)) [
  | inl e ↦ rw e (refl, refl)
  | inr e ↦ rw e (refl, refl)
]

-- `vga_text_putc` keeps the cursor on the screen.
pub vga_text_putc-IsOnScreen :
    (c color : ℕ) (s : Screen) → IsOnScreen s → IsOnScreen (vga_text_putc c color s)
unfolding vga_text_putc vga_text_update_cursor
vga_text_putc-IsOnScreen c color s v = elim (Bool-cases (hidden s)) [
  | inl e ↦ rw e v
  | inr e ↦
      let near = end_line-near (put c color s) (put-IsNear c color s v) in
      let shown = (end_line-same (put c color s)).1 ∙ put-hidden c color s ∙ e in
      let w = end_screen-IsOnScreen (end_line (put c color s)) near.0 near.1 shown in
      rw e (record { column = w.column; line = w.line })
]

-- With the cursor on the screen, `vga_text_putc` writes no byte behind the video memory.
pub vga_text_putc-bounds :
    (c color : ℕ) (s : Screen)
    → IsOnScreen s
    → (q : ℕ) → vga_mem_size ≤ q
    → (vga_text_putc c color s).vram q ≡ s.vram q
unfolding vga_text_putc vga_text_update_cursor SameBehind
vga_text_putc-bounds c color s v q h = elim (Bool-cases (hidden s)) [
  | inl e ↦ rw e refl
  | inr e ↦
      let t = end_line (put c color s) in
      let shown = (end_line-same (put c color s)).1 ∙ put-hidden c color s ∙ e in
      rw e (
        end_screen-SameBehind t shown q h
        ∙ ap (λ (m : ℕ → ℕ). m q) (end_line-same (put c color s)).0
        ∙ put-SameBehind c color s v q h)
]
