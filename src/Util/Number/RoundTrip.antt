-- ===== src/Util/Number/RoundTrip.antt =====
-- `atoi` reads back what `utoa` and `itoa` write.
use vk.Prelude.{
  ℕ, ◌+◌, ◌-◌, ◌*◌, ◌%◌, ◌^◌, ◌≤◌, ◌<◌, ◌≡◌, inl, inr, refl, sym, ap, ◌∙◌, zero, suc, Bool, true,
  false, ◌==◌, leb, poke, Bool-cases, done, arith, leb→le, ◌||◌,
}
use vk.Util.Number.{utoa, itoa, read_digits, atoiindex, atoi}
use vk.Util.Number.Digits.{high, high_le, high-suc, poke-same}
use vk.Util.Number.Reverse.{Decimal, utoa-Decimal}

or_false : (b : Bool) → (b || false) ≡ b
or_false true = refl
or_false false = refl

-- From the digit `i` on, with the digits before it read.
read_digits-high :
    (left rounds n s off len i : ℕ) (m t : ℕ → ℕ) (sign : Bool)
    → n < 2 ^ 32
    → Decimal n (s + off) len m t
    → i + left ≡ len
    → left < rounds
    → read_digits rounds t s (off + i) (high n left) sign ≡ done (n, off + len, sign)
unfolding read_digits high
read_digits-high left zero n s off len i m t sign h dec e lt = absurd (omega arith)
read_digits-high zero (suc rounds) n s off len i m t sign h dec e lt =
    let il : i ≡ len = omega arith in
    let at : s + (off + i) ≡ s + off + len = omega arith in
    let z : (t (s + (off + i)) == 0) ≡ true = ground (arith, ap t at ∙ dec.end) in rw (z, il) refl
read_digits-high (suc left) (suc rounds) n s off len i m t sign h dec e lt =
    let at : s + (off + i) ≡ s + off + i = omega arith in
    let k : len - 1 - i ≡ left = omega arith in
    let c : t (s + (off + i)) ≡ high n left % 10 + 48 =
      ap t at ∙ dec.digit i (omega arith) ∙ rw k refl in
    let more : (t (s + (off + i)) == 0) ≡ false = ground (arith, c) in
    let lo : leb 48 (t (s + (off + i))) ≡ true = ground (arith, c) in
    let hi : leb (t (s + (off + i))) 57 ≡ true = ground (arith, c) in
    let num : (high n (suc left) * 10 + (t (s + (off + i)) - 48)) % 2 ^ 32 ≡ high n left =
      omega (arith, c, high-suc n left, high_le n left) in
    let next : off + i + 1 ≡ off + (i + 1) = omega arith in
    let ih =
      read_digits-high left rounds n s off len (i + 1) m t sign h dec (omega arith) (omega arith) in
    rw (more, lo, hi, num, next)
      (ap (λ (b : Bool). read_digits rounds t s (off + (i + 1)) (high n left) b) (or_false sign)
        ∙ ih)

-- For every u32 and with at least 11 rounds, `utoa` writes a string that `atoi` reads as the same
-- number, and it keeps what is before the string.
pub atoi-utoa :
    (rounds n : ℕ) (m : ℕ → ℕ) (s : ℕ)
    → 10 < rounds
    → n < 2 ^ 32
    → (t : ℕ → ℕ) × (utoa rounds n m s ≡ done t)
      × (atoi rounds t s ≡ done n)
      × ((q : ℕ) → q < s → t q ≡ m q)
unfolding atoi atoiindex
atoi-utoa rounds n m s enough h =
    let (len, t, e, dec) = utoa-Decimal rounds n m s enough h in
    let z : s + 0 ≡ s = omega arith in
    let dec' : Decimal n (s + 0) len m t = rw z dec in
    let read : read_digits rounds t s 0 0 false ≡ done (n, 0 + len, false) =
      ap (λ (k : ℕ). read_digits rounds t s 0 k false) (sym dec.all_digits)
      ∙ read_digits-high len rounds n s 0 len 0 m t false h dec' (omega arith)
          (omega (arith, dec.few)) in
    (t, e, rw read refl, dec.before)

-- A sign is passed over.
read_digits-minus :
    (rounds : ℕ) (t : ℕ → ℕ) (s : ℕ)
    → t s ≡ b'-'
    → read_digits (suc rounds) t s 0 0 false ≡ read_digits rounds t s 1 0 true
unfolding read_digits
read_digits-minus rounds t s e =
    let z : s + 0 ≡ s = omega arith in let o : 0 + 1 ≡ 1 = omega arith in rw (z, e, o) refl

atoi-negative :
    (rounds n : ℕ) (m : ℕ → ℕ) (s : ℕ)
    → 11 < rounds
    → 2 ^ 31 ≤ n
    → n < 2 ^ 32
    → (t : ℕ → ℕ) × (utoa rounds (2 ^ 32 - n) (poke m s b'-') (s + 1) ≡ done t)
      × (atoi rounds t s ≡ done n)
unfolding atoi atoiindex
atoi-negative zero n m s enough lo h = absurd (omega arith)
atoi-negative (suc rounds) n m s enough lo h =
    let (len, t, e, dec) =
      utoa-Decimal (suc rounds) (2 ^ 32 - n) (poke m s b'-') (s + 1) (omega arith) (omega arith) in
    let sign : t s ≡ b'-' = dec.before s (omega arith) ∙ poke-same m s b'-' in
    let read : read_digits (suc rounds) t s 0 0 false ≡ done (2 ^ 32 - n, 1 + len, true) =
      read_digits-minus rounds t s sign
      ∙ ap (λ (k : ℕ). read_digits rounds t s 1 k true) (sym dec.all_digits)
      ∙ read_digits-high len rounds (2 ^ 32 - n) s 1 len 0 (poke m s b'-') t true (omega arith) dec
          (omega arith) (omega (arith, dec.few)) in
    let back : (2 ^ 32 - (2 ^ 32 - n)) % 2 ^ 32 ≡ n = omega arith in (t, e, rw (read, back) refl)

-- For every `int`, the smallest included, and with at least 12 rounds, `itoa` writes a string that
-- `atoi` reads as the same number.
pub atoi-itoa :
    (rounds n : ℕ) (m : ℕ → ℕ) (s : ℕ)
    → 11 < rounds
    → n < 2 ^ 32
    → (t : ℕ → ℕ) × (itoa rounds n m s ≡ done t) × (atoi rounds t s ≡ done n)
unfolding itoa atoi atoiindex read_digits
atoi-itoa rounds n m s enough h = elim (Bool-cases (leb (2 ^ 31) n)) [
  | inl neg ↦
      let (t, e, e') = atoi-negative rounds n m s enough (leb→le (2 ^ 31) n neg) h in
      rw neg (t, e, e')
  | inr pos ↦ let (t, e, e', before) = atoi-utoa rounds n m s (omega arith) h in rw pos (t, e, e')
]
