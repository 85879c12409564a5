-- ===== src/Video.antt =====
-- video/vga_text.c: the 80 by 25 text screen. The functions run without interruption: the mutex of
-- the screen and the ports that set the mode are not modelled.
pub mod Cells
pub mod Laws
pub mod Chars
mod Tests
use vk.Prelude.{
  poke, ℕ, zero, suc, ◌+◌, ◌-◌, ◌*◌, ◌/◌, ◌%◌, ◌^◌, Bool, List, [], ◌∷◌, ◌||◌, if◌then◌else◌, ◌==◌,
  leb, ltb, not,
}

abbrev pub vga_columns : ℕ
vga_columns = 80

abbrev pub vga_lines : ℕ
vga_lines = 25

-- VGA_MEM_END - VGA_MEM_START
abbrev pub vga_mem_size : ℕ
vga_mem_size = 0xFA0

abbrev pub video_type_none : ℕ
video_type_none = 0

abbrev pub video_type_color : ℕ
video_type_color = 0x20

abbrev pub video_mode_vga_text : ℕ
video_mode_vga_text = 1

-- TEXT_CURSOR_X and TEXT_CURSOR_Y, the bytes from VGA_MEM_START on, VIDEO_TYPE, VIDEO_MODE, and the
-- two registers that hold the position of the cursor.
pub record Screen : Type 0 where
  pub x : ℕ
  pub y : ℕ
  pub vram : ℕ → ℕ
  pub video_type : ℕ
  pub video_mode : ℕ
  pub cursor_low : ℕ
  pub cursor_high : ℕ

-- The loops that set cells two bytes at a time, from `i` on.
pub fill : ℕ → ℕ → ℕ → ℕ → (ℕ → ℕ) → ℕ → ℕ
fill zero i c color vram = vram
fill (suc rounds) i c color vram = fill rounds (i + 2) c color (poke (poke vram i c) (i + 1) color)

pub vga_text_cls : Screen → Screen
vga_text_cls s = record s { vram = fill 2000 0 0 0xF s.vram }

pub vga_text_reset : Screen → Screen
vga_text_reset s = let s' = vga_text_cls s in record s' { x = 0; y = 0 }

-- Text can be shown.
abbrev pub hidden : Screen → Bool
hidden s = not (s.video_mode == video_mode_vga_text) || (s.video_type == video_type_none)

-- `memcpy` of all lines but the first to the beginning
abbrev pub shift_up : (ℕ → ℕ) → ℕ → ℕ
shift_up vram q =
    if ltb q (vga_mem_size - vga_columns * 2) then vram (q + vga_columns * 2) else vram q

pub vga_text_scroll_up : Screen → Screen
vga_text_scroll_up s = if hidden s then s else record s {
  vram = fill 80 (vga_mem_size - 2 * vga_columns) 0 7 (shift_up s.vram);
  y = if ltb 0 s.y then s.y - 1 else s.y;
}

pub vga_text_update_cursor : Screen → Screen
vga_text_update_cursor s =
    let position = (s.y * 80 + s.x) % 2 ^ 16 in
    record s { cursor_low = position % 256; cursor_high = position / 256 % 256 }

pub vga_text_set_cursor : ℕ → ℕ → Screen → Screen
vga_text_set_cursor x y s = vga_text_update_cursor (record s { x = x; y = y })

-- The address of the cell at the cursor.
abbrev pub current : Screen → ℕ
current s = 2 * s.x + 2 * vga_columns * s.y

-- What `vga_text_putc` does for each kind of character.
pub put : ℕ → ℕ → Screen → Screen
put c color s =
    if c == b'\n'
    then record s { x = 0; y = (s.y + 1) % 256 }
    else if c == b'\t'
    then (let next_cursor = (s.x + 8 - s.x % 8) % 256 in
        if ltb (vga_columns - 1) next_cursor
        then record s { x = 0; y = (s.y + 1) % 256 }
        else record s { x = next_cursor })
    else if c == b'\r'
    then record s { x = 0 }
    else if c == 8
    then (if ltb 0 s.x
        then record s { x = s.x - 1; vram = poke s.vram (current s - 2) 0 }
        else if ltb 0 s.y
        then record s { y = s.y - 1; x = vga_columns }
        else s)
    else record s {
      x = (s.x + 1) % 256;
      vram =
          if s.video_type == video_type_color
          then poke (poke s.vram (current s) c) (current s + 1) color
          else poke s.vram (current s) c;
    }

pub end_line : Screen → Screen
end_line s = if leb vga_columns s.x then record s { x = 0; y = (s.y + 1) % 256 } else s

pub end_screen : Screen → Screen
end_screen s = if leb vga_lines s.y then vga_text_scroll_up s else s

pub vga_text_putc : ℕ → ℕ → Screen → Screen
vga_text_putc c color s =
    if hidden s then s else vga_text_update_cursor (end_screen (end_line (put c color s)))

put_all : List ℕ → ℕ → Screen → Screen
put_all [] color s = s
put_all (c ∷ cs) color s = put_all cs color (vga_text_putc c color s)

-- The bytes of the string, without the 0 that ends it.
pub vga_text_puts : List ℕ → ℕ → Screen → Screen
unfolding put_all
vga_text_puts cs color s = if hidden s then s else put_all cs color s

pub vga_text_nl : Screen → Screen
vga_text_nl s = if s.x == 0 then s else record s { y = (s.y + 1) % 256; x = 0 }

-- `vga_text_tty_switch` of the terminal whose buffer holds the bytes.
pub vga_text_tty_switch : List ℕ → Screen → Screen
vga_text_tty_switch buffer s = vga_text_puts buffer 7 (vga_text_reset s)
