-- ===== src/Devices/Keyboard/Presses.antt =====
-- The keyboard in front of a terminal.
use vk.Prelude.{
  ℕ, zero, suc, ◌+◌, ◌<◌, ◌≡◌, ◌≢◌, refl, ap, ◌∙◌, false, ◌&&◌, some, List, [], ◌∷◌, All, map,
  get_elem?, ne→==, get_or, Outcome, done, fatal, wild, no_fuel, ◌>>=◌, arith,
}
use vk.Io.Tty.{Console, tty_input}
use vk.Io.Tty.Typing.{type_all}
use vk.Devices.Keyboard.Maps.{layout, getchar-layout, getchar-beyond}
use vk.Devices.Keyboard.{Keys, getchar, press, Action, inputs, apply, action, keyboard_interrupt}

-- A key that is not one of those that are held, and that has a character.
abbrev pub IsKey : Keys → ℕ → Type 0
IsKey keys code =
    (code < 87)
    × (code ≢ 29)
    × (code ≢ 42)
    × (code ≢ 56)
    × (code ≢ 58)
    × ((ch : ℕ) × (get_elem? (layout keys) code ≡ some ch) × (ch ≢ 0))

abbrev pub char_of : Keys → ℕ → ℕ
char_of keys code = get_or (layout keys) code 0

get_or-get_elem? : (xs : List ℕ) (i v : ℕ) → get_elem? xs i ≡ some v → get_or xs i 0 ≡ v
get_or-get_elem? [] i v e = absurd (cc e)
get_or-get_elem? (x ∷ xs) zero v e = cc e
get_or-get_elem? (x ∷ xs) (suc i) v e = get_or-get_elem? xs i v e

press-same :
    (keys : Keys) (code : ℕ)
    → code ≢ 29
    → code ≢ 42
    → code ≢ 56
    → code ≢ 58
    → code ≢ 0x9D
    → code ≢ 170
    → code ≢ 0xB8
    → press code keys ≡ keys
unfolding press
press-same keys code a b c d e f g =
    let a' = ne→== code 29 a in
    let b' = ne→== code 42 b in
    let c' = ne→== code 56 c in
    let d' = ne→== code 58 d in
    let e' = ne→== code 0x9D e in
    let f' = ne→== code 170 f in let g' = ne→== code 0xB8 g in rw (a', b', c', d', e', f', g') refl

action-inputs :
    (keys : Keys) (code ch : ℕ)
    → (keys.kbd_ctrl && keys.kbd_alt) ≡ false
    → getchar keys code ≡ some ch
    → action keys code ≡ done (inputs ch)
unfolding action
action-inputs keys code ch not_both e = rw (not_both, e) refl

abbrev with_same : Keys → Console → Outcome (Keys × Console)
with_same keys c = done (keys, c)

-- A key that is pressed and let go.
pub stroke : ℕ → (ℕ → ℕ) → ℕ → Keys × Console → Outcome (Keys × Console)
stroke rounds stack code s = keyboard_interrupt rounds stack code s >>= λ (_, keys, c).
    keyboard_interrupt rounds stack (code + 128) (keys, c) >>= λ (_, keys', c'). done (keys', c')

pub strokes : ℕ → (ℕ → ℕ) → List ℕ → Keys × Console → Outcome (Keys × Console)
strokes rounds stack [] s = done s
strokes rounds stack (code ∷ codes) s = stroke rounds stack code s >>= strokes rounds stack codes

abbrev with_zero : Keys → Console → Outcome (ℕ × Keys × Console)
with_zero keys c = done (0, keys, c)

abbrev put_number : Outcome Console → Outcome (ℕ × Console)
put_number r = r >>= λ c'. done (0, c')

-- What the interrupt does with the action.
abbrev finish : ℕ → (ℕ → ℕ) → Console → Keys → Outcome Action → Outcome (ℕ × Keys × Console)
finish rounds stack c keys a = a >>= λ a'. apply rounds stack a' c >>= λ (n, c'). done (n, keys, c')

with_keys :
    (keys : Keys) (r : Outcome Console)
    → (put_number r >>= λ (n, c'). done (n, keys, c')) ≡ (r >>= with_zero keys)
with_keys keys (done c) = refl
with_keys keys (fatal e) = refl
with_keys keys wild = refl
with_keys keys no_fuel = refl

pressed :
    (rounds : ℕ) (stack : ℕ → ℕ) (code ch : ℕ) (keys : Keys) (c : Console)
    → press code keys ≡ keys
    → action keys code ≡ done (inputs ch)
    → ch ≢ 0
    → keyboard_interrupt rounds stack code (keys, c)
      ≡ (tty_input rounds stack ch c >>= with_zero keys)
unfolding keyboard_interrupt
pressed rounds stack code ch keys c p a ne =
    let some_char = ne→== ch 0 ne in
    ap (λ k. finish rounds stack c k (action k code)) p
    ∙ ap (finish rounds stack c keys) a
    ∙ rw some_char (with_keys keys (tty_input rounds stack ch c))

released :
    (rounds : ℕ) (stack : ℕ → ℕ) (code : ℕ) (keys : Keys) (c : Console)
    → press code keys ≡ keys
    → action keys code ≡ done (inputs 0)
    → keyboard_interrupt rounds stack code (keys, c) ≡ done (0, keys, c)
unfolding keyboard_interrupt
released rounds stack code keys c p a =
    ap (λ k. finish rounds stack c k (action k code)) p ∙ ap (finish rounds stack c keys) a

module _ (rounds : ℕ) (stack : ℕ → ℕ) (keys : Keys)
    (not_both : (keys.kbd_ctrl && keys.kbd_alt) ≡ false) where
  stroke-tty_input :
      (code : ℕ) (c : Console)
      → IsKey keys code
      → stroke rounds stack code (keys, c)
        ≡ (tty_input rounds stack (char_of keys code) c >>= with_same keys)
  unfolding stroke
  stroke-tty_input code c (lt, n29, n42, n56, n58, (ch, e, some_char)) =
      let value : char_of keys code ≡ ch = get_or-get_elem? (layout keys) code ch e in
      let down =
        pressed rounds stack code ch keys c
          (press-same keys code n29 n42 n56 n58 (λ z. omega (arith, z, lt))
            (λ z. omega (arith, z, lt)) (λ z. omega (arith, z, lt)))
          (action-inputs keys code ch not_both (getchar-layout keys code (omega (arith, lt)) ∙ e))
          some_char in
      rw (value, down) (then_released (tty_input rounds stack ch c))
    where
      then_released :
          (r : Outcome Console)
          → ((r >>= with_zero keys) >>= λ (_, keys', c').
              keyboard_interrupt rounds stack (code + 128) (keys', c') >>= λ (_, keys'', c'').
              done (keys'', c''))
            ≡ (r >>= with_same keys)
      then_released (done c') =
          let up =
            released rounds stack (code + 128) keys c'
              (press-same keys (code + 128) (λ z. omega (arith, z)) (λ z. omega (arith, z))
                (λ z. omega (arith, z)) (λ z. omega (arith, z)) (λ z. n29 (omega (arith, z)))
                (λ z. n42 (omega (arith, z))) (λ z. n56 (omega (arith, z))))
              (action-inputs keys (code + 128) 0 not_both
                (getchar-beyond keys (code + 128) (omega arith))) in
          rw up refl
      then_released (fatal e') = refl
      then_released wild = refl
      then_released no_fuel = refl

  -- Keys of a character that are pressed and let go one after another, while the control and the
  -- alt key are not both held, none of them being shift, control, alt or the lock of capitals, leave
  -- the keys that are held as they were, and come to the input of their characters in the map for
  -- these keys, one after another, into the terminal that is shown.
  pub strokes-type_all :
      (codes : List ℕ) (c : Console)
      → All (IsKey keys) codes
      → strokes rounds stack codes (keys, c)
        ≡ (type_all rounds stack (map (char_of keys) codes) c >>= with_same keys)
  unfolding strokes type_all
  strokes-type_all [] c is_keys = refl
  strokes-type_all (code ∷ codes) c is_keys =
      let first = stroke-tty_input code c is_keys.0 in
      rw first (
        others (tty_input rounds stack (char_of keys code) c)
          (λ c'. strokes-type_all codes c' is_keys.1))
    where
      others :
          (r : Outcome Console)
          → ((c' : Console)
              → strokes rounds stack codes (keys, c')
                ≡ (type_all rounds stack (map (char_of keys) codes) c' >>= with_same keys))
          → ((r >>= with_same keys) >>= strokes rounds stack codes)
            ≡ ((r >>= type_all rounds stack (map (char_of keys) codes)) >>= with_same keys)
      others (done c') ih = ih c'
      others (fatal e) ih = refl
      others wild ih = refl
      others no_fuel ih = refl
