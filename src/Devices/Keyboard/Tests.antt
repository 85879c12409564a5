-- ===== src/Devices/Keyboard/Tests.antt =====
-- Keys that are pressed on a keyboard of which no other key is held.
use vk.Prelude.{ℕ, ◌≡◌, ◌≢◌, ◌⊎◌, refl, true, false, none, some, [], ◌∷◌, ◌>>=◌, done, arith}
use vk.Io.Tty.{Console, default_termio}
use vk.Io.Tty.Typing.{type_all}
use vk.Devices.Keyboard.{Keys, getchar, action, switches}
use vk.Devices.Keyboard.Maps.{getchar-inside}
use vk.Devices.Keyboard.Presses.{strokes, strokes-type_all}

abbrev no_keys : Keys
no_keys = record { kbd_maj = false; kbd_ctrl = false; kbd_alt = false }

abbrev console : Console
console = record {
  tty = record {
    buffer = λ q. 0;
    count = 0;
    buffer_size = 1024;
    canon_buffer = λ q. 0;
    canon_buffer_count = 0;
    canon_buffer_size = 256;
    keyboard_stream = record {
      buffer = λ q. 0;
      count = 0;
      buffer_size = 100;
      attributes = 13;
      waiting = [];
    };
    termio = default_termio;
    foreground_processes = none;
  };
  is_current = true;
  screen = record {
    x = 0;
    y = 0;
    vram = λ q. 0;
    video_type = 0x20;
    video_mode = 1;
    cursor_low = 0;
    cursor_high = 0;
  };
  signals = record { processes = λ pid. none; signal_list = []; current_process = 3 };
  group = none;
  members = λ gid. none;
}

-- Control, alt and F2.
second_terminal :
    action (record { kbd_maj = false; kbd_ctrl = true; kbd_alt = true }) 0x3C ≡ done (switches 2)
unfolding action
second_terminal = refl

abbrev f11 : ℕ
f11 = 87

getchar-inside_example :
    ((f11 ≢ f11) × ((ch : ℕ) × (getchar no_keys 87 ≡ some ch)))
    ⊎ ((f11 ≡ f11) × (getchar no_keys 87 ≡ none))
getchar-inside_example = getchar-inside no_keys 87

strokes-type_all_example :
    strokes 1 (λ q. 0) (38 ∷ 31 ∷ 28 ∷ []) (no_keys, console)
    ≡ (type_all 1 (λ q. 0) (b'l' ∷ b's' ∷ b'\n' ∷ []) console >>= λ c'. done (no_keys, c'))
strokes-type_all_example =
    strokes-type_all 1 (λ q. 0) no_keys refl (38 ∷ 31 ∷ 28 ∷ []) console
      (
        (
          omega arith,
          omega arith,
          omega arith,
          omega arith,
          omega arith,
          (b'l', refl, omega arith),
        ),
        (
          (
            omega arith,
            omega arith,
            omega arith,
            omega arith,
            omega arith,
            (b's', refl, omega arith),
          ),
          (
            (
              omega arith,
              omega arith,
              omega arith,
              omega arith,
              omega arith,
              (b'\n', refl, omega arith),
            ),
            tt,
          ),
        ),
      )
