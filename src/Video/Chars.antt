-- ===== src/Video/Chars.antt =====
-- What each kind of character does to the screen.
use vk.Prelude.{
  ℕ, ◌+◌, ◌*◌, ◌<◌, ◌≡◌, ◌≢◌, inl, inr, Bool-cases, false, if◌then◌else◌, ◌==◌, arith, List, [],
  ◌∷◌, ne→==,
}
use vk.Video.{
  Screen, hidden, put, end_line, end_screen, vga_text_update_cursor, vga_text_putc, vga_text_puts,
  put_all, video_type_color,
}
use vk.Video.Laws.{IsOnScreen, vga_text_putc-IsOnScreen}

-- The cell of the cursor, counted from the first of the screen.
abbrev pub place : Screen → ℕ
place s = 80 * s.y + s.x

abbrev pub IsPlain : ℕ → Type 0
IsPlain c = (c ≢ b'\n') × (c ≢ b'\t') × (c ≢ b'\r') × (c ≢ 8)

-- What is shown after the character `c` at the place of the cursor.
pub record Shows (c color : ℕ) (s t : Screen) : Type 0 where
  pub character : t.vram (2 * place s) ≡ c
  pub attribute :
      t.vram (2 * place s + 1)
      ≡ (if s.video_type == video_type_color then color else s.vram (2 * place s + 1))
  pub others : (q : ℕ) → q ≢ 2 * place s → q ≢ 2 * place s + 1 → t.vram q ≡ s.vram q
  pub next : place t ≡ place s + 1
  pub register : t.cursor_low + 256 * t.cursor_high ≡ place s + 1

-- A plain character, with the cursor on the screen and not on its last cell, is shown at the
-- cursor, with its color on a color screen; no other byte changes, and the cursor, with the
-- registers that hold it, goes to the next cell.
pub vga_text_putc-Shows :
    (c color : ℕ) (s : Screen)
    → IsOnScreen s
    → hidden s ≡ false
    → IsPlain c
    → place s < 1999
    → Shows c color s (vga_text_putc c color s)
unfolding vga_text_putc put end_line end_screen vga_text_update_cursor
vga_text_putc-Shows c color s v h p room =
    rw (h, ne→== c b'\n' p.0, ne→== c b'\t' p.1, ne→== c b'\r' p.2, ne→== c 8 p.3)
      (record {
        character = ground arith;
        attribute = ground arith;
        others = λ q a b. ground arith;
        next = ground arith;
        register = ground arith;
      })

-- In the first column `\b` changes neither the place of the cursor nor the video memory.
pub vga_text_putc-backspace_stuck :
    (color : ℕ) (s : Screen)
    → IsOnScreen s
    → hidden s ≡ false
    → s.x ≡ 0
    → (place (vga_text_putc 8 color s) ≡ place s) × ((vga_text_putc 8 color s).vram ≡ s.vram)
unfolding vga_text_putc put end_line end_screen vga_text_update_cursor
vga_text_putc-backspace_stuck color s v h z = rw h (ground arith, ground arith)

-- In any other column `\b` goes back by one cell and clears its character.
pub vga_text_putc-backspace :
    (color : ℕ) (s : Screen)
    → IsOnScreen s
    → hidden s ≡ false
    → 0 < s.x
    → let t = vga_text_putc 8 color s in
      (place t + 1 ≡ place s)
      × (t.vram (2 * place t) ≡ 0)
      × ((q : ℕ) → q ≢ 2 * place t → t.vram q ≡ s.vram q)
unfolding vga_text_putc put end_line end_screen vga_text_update_cursor
vga_text_putc-backspace color s v h z = rw h (ground arith, ground arith, λ q ne. ground arith)

put_all-IsOnScreen :
    (cs : List ℕ) (color : ℕ) (s : Screen) → IsOnScreen s → IsOnScreen (put_all cs color s)
unfolding put_all
put_all-IsOnScreen [] color s v = v
put_all-IsOnScreen (c ∷ cs) color s v =
    put_all-IsOnScreen cs color (vga_text_putc c color s) (vga_text_putc-IsOnScreen c color s v)

-- `vga_text_puts` keeps the cursor on the screen.
pub vga_text_puts-IsOnScreen :
    (cs : List ℕ) (color : ℕ) (s : Screen) → IsOnScreen s → IsOnScreen (vga_text_puts cs color s)
unfolding vga_text_puts
vga_text_puts-IsOnScreen cs color s v = elim (Bool-cases (hidden s)) [
  | inl e ↦ rw e v
  | inr e ↦ rw e (put_all-IsOnScreen cs color s v)
]
