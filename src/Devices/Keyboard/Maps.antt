-- ===== src/Devices/Keyboard/Maps.antt =====
-- The characters of scan codes.
use vk.Prelude.{
  ℕ, zero, suc, ◌≤◌, ◌<◌, ◌≡◌, ◌≢◌, ◌⊎◌, inl, inr, refl, ◌∙◌, true, false, none, some, List, [],
  ◌∷◌, get_elem?, length, if◌then◌else◌, ◌==◌, ltb, ==→eq, ==→ne, ltb→lt, Bool-cases, arith,
}
use vk.Devices.Keyboard.{Keys, azer_kbd_map, azer_maj_kbd_map, azer_ctrl_kbd_map, getchar}

get_elem?-inside : (xs : List ℕ) (i : ℕ) → i < length xs → (v : ℕ) × (get_elem? xs i ≡ some v)
get_elem?-inside [] i lt = absurd (omega (arith, lt))
get_elem?-inside (x ∷ xs) zero lt = (x, refl)
get_elem?-inside (x ∷ xs) (suc i) lt = get_elem?-inside xs i (omega (arith, lt))

-- The map for the keys that are held.
abbrev pub layout : Keys → List ℕ
layout keys =
    if keys.kbd_maj
    then azer_maj_kbd_map
    else if keys.kbd_ctrl
    then azer_ctrl_kbd_map
    else azer_kbd_map

length-layout : (keys : Keys) → length (layout keys) ≡ 87
length-layout keys = elim (Bool-cases keys.kbd_maj) [
  | inl maj ↦ rw maj refl
  | inr small ↦ elim (Bool-cases keys.kbd_ctrl) [
    | inl ctrl ↦ rw (small, ctrl) refl
    | inr bare ↦ rw (small, bare) refl
  ]
]

pub getchar-layout :
    (keys : Keys) (keycode : ℕ)
    → keycode ≤ 87
    → getchar keys keycode ≡ get_elem? (layout keys) keycode
unfolding getchar
getchar-layout keys keycode le =
    let inside : ltb (length azer_kbd_map) keycode ≡ false = ground (arith, le) in
    elim (Bool-cases keys.kbd_maj) [
      | inl maj ↦ rw (inside, maj) refl
      | inr small ↦ elim (Bool-cases keys.kbd_ctrl) [
        | inl ctrl ↦ rw (inside, small, ctrl) refl
        | inr bare ↦ rw (inside, small, bare) refl
      ]
    ]

pub getchar-beyond : (keys : Keys) (keycode : ℕ) → 87 < keycode → getchar keys keycode ≡ some 0
unfolding getchar
getchar-beyond keys keycode lt =
    let outside : ltb (length azer_kbd_map) keycode ≡ true = ground (arith, lt) in rw outside refl

get_elem?-behind : (xs : List ℕ) (i : ℕ) → length xs ≤ i → get_elem? xs i ≡ none
get_elem?-behind [] i le = refl
get_elem?-behind (x ∷ xs) zero le = absurd (omega (arith, le))
get_elem?-behind (x ∷ xs) (suc i) le = get_elem?-behind xs i (omega (arith, le))

-- Whatever keys are held, `getchar` of a scan code stays inside the maps exactly if the scan code is
-- not 87, which is the number of their places.
pub getchar-inside :
    (keys : Keys) (keycode : ℕ)
    → ((keycode ≢ 87) × ((ch : ℕ) × (getchar keys keycode ≡ some ch)))
      ⊎ ((keycode ≡ 87) × (getchar keys keycode ≡ none))
getchar-inside keys keycode = elim (Bool-cases (ltb keycode 87)) [
  | inl below ↦
      let lt = ltb→lt keycode 87 below in
      let (ch, e) =
        get_elem?-inside (layout keys) keycode (omega (arith, lt, length-layout keys)) in
      inl (λ z. omega (arith, z, lt), (ch, getchar-layout keys keycode (omega (arith, lt)) ∙ e))
  | inr from ↦ elim (Bool-cases (keycode == 87)) [
    | inl last ↦
        let e = ==→eq keycode 87 last in
        inr (
          e,
          getchar-layout keys keycode (omega (arith, e))
              ∙ get_elem?-behind (layout keys) keycode (omega (arith, e, length-layout keys)),
        )
    | inr other ↦
        let ne = ==→ne keycode 87 other in
        inl (ne, (0, getchar-beyond keys keycode (ground (arith, from, ne))))
  ]
]
