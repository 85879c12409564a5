-- ===== src/Util/Number/Reverse.antt =====
-- `reverse` turns a string around in its place, and `utoa` leaves the digits in reading order.
use vk.Prelude.{
  ℕ, ◌+◌, ◌-◌, ◌%◌, ◌^◌, ◌≤◌, ◌<◌, ◌≡◌, ◌≢◌, inl, inr, refl, sym, ap, ◌∙◌, zero, suc, true, false,
  ◌==◌, ltb, poke, Bool-cases, done, arith, ltb→lt, ne→==, ==→eq, ==→ne,
}
use vk.Util.Number.{strlen, swap_ends, reverse, utoa}
use vk.Util.Number.Digits.{poke-other, high, high-ten, high-more, Wrote, write_digits-Wrote}

-- From `a` to `b` `t` is `m` turned around, and elsewhere it is `m`.
pub record Turned (a b : ℕ) (m t : ℕ → ℕ) : Type 0 where
  pub inside : (q : ℕ) → a ≤ q → q ≤ b → t q ≡ m (a + b - q)
  pub before : (q : ℕ) → q < a → t q ≡ m q
  pub behind : (q : ℕ) → b < q → t q ≡ m q

swapped-Turned :
    (a b : ℕ) (m t : ℕ → ℕ)
    → a < b
    → Turned (a + 1) (b - 1) (poke (poke m a (m b)) b (m a)) t
    → Turned a b m t
swapped-Turned a b m t lt w = record {
  inside = λ q lo hi. elim (Bool-cases (q == a)) [
    | inl e ↦
        let qa = ==→eq q a e in
        let at : a + b - q ≡ b = omega (arith, qa) in
        w.before q (omega (arith, qa)) ∙ rw at (ground (arith, qa))
    | inr ne ↦ elim (Bool-cases (q == b)) [
      | inl e ↦
          let qb = ==→eq q b e in
          let at : a + b - q ≡ a = omega (arith, qb) in
          w.behind q (omega (arith, qb)) ∙ rw at (ground (arith, qb))
      | inr ne' ↦
          let na = ==→ne q a ne in
          let nb = ==→ne q b ne' in
          let at : a + 1 + (b - 1) - q ≡ a + b - q = omega (arith, na, nb, lo, hi) in
          w.inside q (omega (arith, na, lo)) (omega (arith, nb, hi))
          ∙ rw at (ground (arith, na, nb, lo, hi))
    ]
  ];
  before = λ q lo. w.before q (omega (arith, lo)) ∙ ground (arith, lo);
  behind = λ q hi. w.behind q (omega (arith, hi)) ∙ ground (arith, hi);
}

pub swap_ends-Turned :
    (rounds : ℕ) (m : ℕ → ℕ) (s i j : ℕ)
    → j < i + rounds
    → 0 < rounds
    → i ≤ j + 1
    → (t : ℕ → ℕ) × (swap_ends rounds m s i j ≡ done t) × Turned (s + i) (s + j) m t
unfolding swap_ends
swap_ends-Turned zero m s i j enough pos le = absurd (omega arith)
swap_ends-Turned (suc rounds) m s i j enough pos le = elim (Bool-cases (ltb i j)) [
  | inl more ↦
      let lt = ltb→lt i j more in
      let m' = poke (poke m (s + i) (m (s + j))) (s + j) (m (s + i)) in
      let (t, e, w) =
        swap_ends-Turned rounds m' s (i + 1) (j - 1) (omega arith) (omega arith) (omega arith) in
      let ea : s + (i + 1) ≡ s + i + 1 = omega arith in
      let eb : s + (j - 1) ≡ s + j - 1 = omega arith in
      rw more (t, e, swapped-Turned (s + i) (s + j) m t (omega arith) (rw (sym ea, sym eb) w))
  | inr stop ↦
      let stop_le : j ≤ i = ground (arith, stop) in
      rw stop (
        m,
        refl,
        record {
          inside = λ q lo hi. ap m (omega (arith, lo, hi, stop_le));
          before = λ q lt. refl;
          behind = λ q lt. refl;
        },
      )
]

pub strlen_lem :
    (rounds : ℕ) (m : ℕ → ℕ) (str len : ℕ)
    → len < rounds
    → ((k : ℕ) → k < len → m (str + k) ≢ 0)
    → m (str + len) ≡ 0
    → strlen rounds m str ≡ done len
unfolding strlen
strlen_lem zero m str len lt h z = absurd (omega arith)
strlen_lem (suc rounds) m str zero lt h z =
    let e : m str ≡ 0 = ap m (omega arith) ∙ z in
    let b : (m str == 0) ≡ true = ground (arith, e) in rw b refl
strlen_lem (suc rounds) m str (suc len) lt h z =
    let ne : m str ≢ 0 = λ e. h 0 (omega arith) (ap m (omega arith) ∙ e) in
    let b : (m str == 0) ≡ false = ne→== (m str) 0 ne in
    let ih =
      strlen_lem rounds m (str + 1) len (omega arith)
        (λ k lt e. h (suc k) (omega (arith, lt)) (ap m (omega arith) ∙ e))
        (ap m (omega arith) ∙ z) in
    let one : len + 1 ≡ suc len = omega arith in rw (b, ih, one) refl

-- `n` in decimal digits stands in `t` from `s` on; what is before it is as in `m`.
pub record Decimal (n s len : ℕ) (m t : ℕ → ℕ) : Type 0 where
  pub some_digit : 0 < len
  pub few : len ≤ 10
  pub all_digits : high n len ≡ 0
  pub digit : (k : ℕ) → k < len → t (s + k) ≡ high n (len - 1 - k) % 10 + 48
  pub end : t (s + len) ≡ 0
  pub before : (q : ℕ) → q < s → t q ≡ m q

Turned-Decimal :
    (n s len : ℕ) (m w t : ℕ → ℕ)
    → n < 2 ^ 32
    → Wrote n s len m w
    → Turned s (s + (len - 1)) (poke w (s + len) 0) t
    → Decimal n s len m t
Turned-Decimal n s len m w t h wrote turned = record {
  some_digit = wrote.some_digit;
  few = wrote.few 10 (omega arith) (high-ten n h);
  all_digits = wrote.all_digits;
  digit = λ k lt.
      let at : s + (s + (len - 1)) - (s + k) ≡ s + (len - 1 - k) = omega (arith, lt) in
      turned.inside (s + k) (omega arith) (omega (arith, lt))
      ∙ rw at (poke-other w (s + len) 0 (s + (len - 1 - k)) (omega (arith, lt)))
      ∙ wrote.digit (len - 1 - k) (omega (arith, lt));
  end = turned.behind (s + len) (omega (arith, wrote.some_digit)) ∙ ground arith;
  before = λ q lt.
      turned.before q lt ∙ poke-other w (s + len) 0 q (omega (arith, lt)) ∙ wrote.before q lt;
}

-- With eleven rounds or more, which every u32 can do with, `utoa` leaves the digits of the number.
pub utoa-Decimal :
    (rounds n : ℕ) (m : ℕ → ℕ) (s : ℕ)
    → 10 < rounds
    → n < 2 ^ 32
    → (len : ℕ) × (t : ℕ → ℕ) × (utoa rounds n m s ≡ done t) × Decimal n s len m t
unfolding utoa reverse
utoa-Decimal rounds n m s enough h =
    let (len, w, e, wrote, le) =
      write_digits-Wrote rounds n 0 s m (omega arith) (high-more n rounds h (omega arith)) in
    let z : s + 0 ≡ s = omega arith in
    let wrote' : Wrote n s len m w = rw z at wrote in
    let few = wrote'.few 10 (omega arith) (high-ten n h) in
    let w' = poke w (s + len) 0 in
    let size : strlen rounds w' s ≡ done len =
      strlen_lem rounds w' s len (omega arith)
        (λ k lt e.
          omega (arith, e, poke-other w (s + len) 0 (s + k) (omega (arith, lt)), wrote'.digit k lt))
        (ground arith) in
    let (t, e', turned) =
      swap_ends-Turned rounds w' s 0 (len - 1) (omega arith) (omega arith)
        (omega (arith, wrote'.some_digit)) in
    let j : (len + (2 ^ 32 - 1)) % 2 ^ 32 ≡ len - 1 = omega (arith, wrote'.some_digit) in
    let l : 0 + len ≡ len = omega arith in
    (len, t, rw (e, l, size, j) e', Turned-Decimal n s len m w t h wrote' (rw z at turned))
