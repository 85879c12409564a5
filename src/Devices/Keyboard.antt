-- ===== src/Devices/Keyboard.antt =====
-- devices/keyboard.c, and the interrupt of the keyboard in cpu/isrs.c: scan codes into characters
-- for the terminal that is shown. Port 0x60 gives the scan code.
pub mod Maps
pub mod Presses
mod Tests
use vk.Prelude.{
  ℕ, ◌+◌, Bool, true, false, not, ◌&&◌, ◌||◌, Option, none, some, List, [], ◌∷◌, get_elem?, length,
  if◌then◌else◌, ◌==◌, ltb, Outcome, done, wild, ◌>>=◌,
}
use vk.Io.Tty.{Console, tty_input}

pub record Keys : Type 0 where
  pub kbd_maj : Bool
  pub kbd_ctrl : Bool
  pub kbd_alt : Bool

abbrev pub azer_kbd_map : List ℕ
azer_kbd_map =
    0 ∷ 0 ∷ 38 ∷ 130 ∷ 34 ∷ 39 ∷ 40 ∷ 45 ∷ 138 ∷ 95 ∷ 135 ∷ 133 ∷ 41 ∷ 61 ∷ 8 ∷ 9 ∷ 97 ∷ 122 ∷ 101
    ∷ 114 ∷ 116 ∷ 121 ∷ 117 ∷ 105 ∷ 111 ∷ 112 ∷ 94 ∷ 36 ∷ 10 ∷ 0 ∷ 113 ∷ 115 ∷ 100 ∷ 102 ∷ 103 ∷ 104
    ∷ 106 ∷ 107 ∷ 108 ∷ 109 ∷ 151 ∷ 0 ∷ 0 ∷ 42 ∷ 119 ∷ 120 ∷ 99 ∷ 118 ∷ 98 ∷ 110 ∷ 44 ∷ 59 ∷ 58 ∷ 33
    ∷ 0 ∷ 0 ∷ 0 ∷ 32 ∷ 0 ∷ 0 ∷ 0 ∷ 0 ∷ 0 ∷ 0 ∷ 0 ∷ 0 ∷ 0 ∷ 0 ∷ 0 ∷ 0 ∷ 0 ∷ 0 ∷ 0 ∷ 0 ∷ 0 ∷ 0 ∷ 0 ∷ 0
    ∷ 0 ∷ 0 ∷ 0 ∷ 0 ∷ 0 ∷ 0 ∷ 0 ∷ 0 ∷ 60 ∷ []

abbrev pub azer_maj_kbd_map : List ℕ
azer_maj_kbd_map =
    0 ∷ 0 ∷ 49 ∷ 50 ∷ 51 ∷ 52 ∷ 53 ∷ 54 ∷ 55 ∷ 56 ∷ 57 ∷ 48 ∷ 167 ∷ 43 ∷ 8 ∷ 9 ∷ 65 ∷ 90 ∷ 69 ∷ 82
    ∷ 84 ∷ 89 ∷ 85 ∷ 73 ∷ 79 ∷ 80 ∷ 249 ∷ 156 ∷ 10 ∷ 0 ∷ 81 ∷ 83 ∷ 68 ∷ 70 ∷ 71 ∷ 72 ∷ 74 ∷ 75 ∷ 76
    ∷ 77 ∷ 37 ∷ 0 ∷ 0 ∷ 230 ∷ 87 ∷ 88 ∷ 67 ∷ 86 ∷ 66 ∷ 78 ∷ 63 ∷ 46 ∷ 47 ∷ 245 ∷ 0 ∷ 0 ∷ 0 ∷ 32 ∷ 0
    ∷ 0 ∷ 0 ∷ 0 ∷ 0 ∷ 0 ∷ 0 ∷ 0 ∷ 0 ∷ 0 ∷ 0 ∷ 0 ∷ 0 ∷ 0 ∷ 0 ∷ 0 ∷ 0 ∷ 0 ∷ 0 ∷ 0 ∷ 0 ∷ 0 ∷ 0 ∷ 0 ∷ 0
    ∷ 0 ∷ 0 ∷ 0 ∷ 62 ∷ []

abbrev pub azer_ctrl_kbd_map : List ℕ
azer_ctrl_kbd_map =
    0 ∷ 0 ∷ 0 ∷ 0 ∷ 0 ∷ 0 ∷ 0 ∷ 0 ∷ 0 ∷ 0 ∷ 0 ∷ 0 ∷ 0 ∷ 0 ∷ 0 ∷ 0 ∷ 0 ∷ 26 ∷ 0 ∷ 0 ∷ 0 ∷ 0 ∷ 21 ∷ 0
    ∷ 0 ∷ 0 ∷ 0 ∷ 0 ∷ 0 ∷ 0 ∷ 17 ∷ 19 ∷ 4 ∷ 0 ∷ 0 ∷ 8 ∷ 0 ∷ 0 ∷ 0 ∷ 0 ∷ 0 ∷ 0 ∷ 0 ∷ 0 ∷ 0 ∷ 0 ∷ 3
    ∷ 0 ∷ 0 ∷ 0 ∷ 0 ∷ 0 ∷ 0 ∷ 0 ∷ 0 ∷ 0 ∷ 0 ∷ 0 ∷ 0 ∷ 0 ∷ 0 ∷ 0 ∷ 0 ∷ 0 ∷ 0 ∷ 0 ∷ 0 ∷ 0 ∷ 0 ∷ 0 ∷ 0
    ∷ 0 ∷ 0 ∷ 0 ∷ 0 ∷ 0 ∷ 0 ∷ 0 ∷ 0 ∷ 0 ∷ 0 ∷ 0 ∷ 0 ∷ 0 ∷ 0 ∷ 0 ∷ 0 ∷ []

-- `none` for a place behind the map.
pub getchar : Keys → ℕ → Option ℕ
getchar keys keycode =
    if ltb (length azer_kbd_map) keycode
    then some 0
    else if keys.kbd_maj
    then get_elem? azer_maj_kbd_map keycode
    else if keys.kbd_ctrl
    then get_elem? azer_ctrl_kbd_map keycode
    else get_elem? azer_kbd_map keycode

-- The keys that are held: shift and the lock of capitals turn `kbd_maj` over.
pub press : ℕ → Keys → Keys
press keycode keys = record {
  kbd_maj =
      if (keycode == 42) || (keycode == 170) || (keycode == 58)
      then not keys.kbd_maj
      else keys.kbd_maj;
  kbd_ctrl = if keycode == 0x1D then true else if keycode == 0x9D then false else keys.kbd_ctrl;
  kbd_alt = if keycode == 0x38 then true else if keycode == 0xB8 then false else keys.kbd_alt;
}

-- What an interrupt comes to: a switch to the terminal of the number, or a character, 0 for none.
pub data Action : Type 0 where
  switches : ℕ → Action
  inputs : ℕ → Action

abbrev pub inputs_char : Option ℕ → Outcome Action
inputs_char none = wild
inputs_char (some ch) = done (inputs ch)

pub action : Keys → ℕ → Outcome Action
unfolding getchar
action keys keycode =
    if keys.kbd_ctrl && keys.kbd_alt && (keycode == 0x3B)
    then done (switches 1)
    else if keys.kbd_ctrl && keys.kbd_alt && (keycode == 0x3C)
    then done (switches 2)
    else if keys.kbd_ctrl && keys.kbd_alt && (keycode == 0x3D)
    then done (switches 3)
    else inputs_char (getchar keys keycode)

-- With the number of the terminal to switch to, or 0, and the terminal that is shown.
abbrev pub apply : ℕ → (ℕ → ℕ) → Action → Console → Outcome (ℕ × Console)
apply rounds stack (switches n) c = done (n, c)
apply rounds stack (inputs ch) c =
    let typed = tty_input rounds stack ch c >>= λ c'. done (0, c') in
    if ch == 0 then done (0, c) else typed

-- Behind the test that the terminals are there.
pub keyboard_interrupt : ℕ → (ℕ → ℕ) → ℕ → Keys × Console → Outcome (ℕ × Keys × Console)
unfolding press action
keyboard_interrupt rounds stack keycode (keys, c) =
    let keys' = press keycode keys in
    action keys' keycode >>= λ a. apply rounds stack a c >>= λ (n, c'). done (n, keys', c')
