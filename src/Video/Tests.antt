-- ===== src/Video/Tests.antt =====
-- A screen of spaces.
use vk.Prelude.{ℕ, ◌≡◌, refl, arith}
use vk.Video.{
  Screen, vga_text_putc, vga_text_scroll_up, put, end_line, end_screen, vga_text_update_cursor,
}
use vk.Video.Chars.{Shows, vga_text_putc-Shows}

-- The cursor in column `x` of line `y`.
abbrev at : ℕ → ℕ → Screen
at x y = record {
  x = x;
  y = y;
  vram = λ q. 0x20;
  video_type = 0x20;
  video_mode = 1;
  cursor_low = 0;
  cursor_high = 0;
}

-- A line feed on the last line scrolls.
line_feed : (vga_text_putc b'\n' 7 (at 5 24)).y ≡ 24
unfolding vga_text_putc put end_line end_screen vga_text_scroll_up vga_text_update_cursor
line_feed = refl

vga_text_putc-Shows_example : Shows b'A' 7 (at 79 3) (vga_text_putc b'A' 7 (at 79 3))
vga_text_putc-Shows_example =
    vga_text_putc-Shows b'A' 7 (at 79 3) (omega arith) refl (omega arith) (omega arith)
