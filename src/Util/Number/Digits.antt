-- ===== src/Util/Number/Digits.antt =====
-- What `write_digits` puts into memory, and what `reverse` makes of it.
use vk.Prelude.{
  ℕ, ◌+◌, ◌-◌, ◌/◌, ◌%◌, ◌^◌, ◌≤◌, ◌<◌, ◌≡◌, ◌≢◌, inl, inr, refl, ap, ◌∙◌, zero, suc, ltb, poke,
  Bool-cases, done, arith, ltb→lt,
}
use vk.Util.Number.{write_digits}

-- `n` without its last `k` decimal digits
unfoldable pub high : ℕ → ℕ → ℕ
high n zero = n
high n (suc k) = high (n / 10) k

pub high-suc : (n k : ℕ) → high n (suc k) ≡ high n k / 10
unfolding high
high-suc n zero = refl
high-suc n (suc k) = high-suc (n / 10) k

high-some : (n k : ℕ) → 0 < n → high n k ≡ 0 → 0 < k
unfolding high
high-some n zero pos h = absurd (omega arith)
high-some n (suc k) pos h = omega arith

high-add : (n j k : ℕ) → high n (j + k) ≡ high (high n j) k
unfolding high
high-add n zero k = let z : 0 + k ≡ k = omega arith in rw z refl
high-add n (suc j) k = let e : suc j + k ≡ suc (j + k) = omega arith in rw e (high-add (n / 10) j k)

high-zero : (k : ℕ) → high 0 k ≡ 0
unfolding high
high-zero zero = refl
high-zero (suc k) = high-zero k

pub high_le : (n k : ℕ) → high n k ≤ n
unfolding high
high_le n zero = omega arith
high_le n (suc k) = omega (arith, high_le (n / 10) k)

-- Ten digits are enough for a u32.
pub high-ten : (n : ℕ) → n < 2 ^ 32 → high n 10 ≡ 0
unfolding high
high-ten n h = omega arith

pub high-more : (n k : ℕ) → n < 2 ^ 32 → 10 ≤ k → high n k ≡ 0
high-more n k h le =
    let e : k ≡ 10 + (k - 10) = omega arith in
    rw e (high-add n 10 (k - 10) ∙ rw (high-ten n h) (high-zero (k - 10)))

-- `len` digits of `n`, the last one first, stand in `t` from `a` on; all else is as in `m`.
pub record Wrote (n a len : ℕ) (m t : ℕ → ℕ) : Type 0 where
  pub some_digit : 0 < len
  pub all_digits : high n len ≡ 0
  pub digit : (k : ℕ) → k < len → t (a + k) ≡ high n k % 10 + 48
  pub few : (d : ℕ) → 0 < d → high n d ≡ 0 → len ≤ d
  pub before : (q : ℕ) → q < a → t q ≡ m q

pub poke-same : (m : ℕ → ℕ) (a v : ℕ) → poke m a v a ≡ v
poke-same m a v = ground arith

pub poke-other : (m : ℕ → ℕ) (a v q : ℕ) → a ≢ q → poke m a v q ≡ m q
poke-other m a v q ne = ground (arith, ne)

more_digits :
    (n i s : ℕ) (m t : ℕ → ℕ) (len : ℕ)
    → Wrote (n / 10) (s + (i + 1)) len (poke m (s + i) (n % 10 + 48)) t
    → (k : ℕ) → k < suc len
    → t (s + i + k) ≡ high n k % 10 + 48
unfolding high
more_digits n i s m t len w zero lt =
    let z : s + i + 0 ≡ s + i = omega arith in
    rw z (w.before (s + i) (omega arith) ∙ poke-same m (s + i) (n % 10 + 48))
more_digits n i s m t len w (suc k) lt =
    let e : s + i + suc k ≡ s + (i + 1) + k = omega arith in rw e (w.digit k (omega arith))

more_few :
    (n len : ℕ)
    → ((d : ℕ) → 0 < d → high (n / 10) d ≡ 0 → len ≤ d)
    → 0 < n / 10
    → (d : ℕ) → 0 < d
    → high n d ≡ 0
    → suc len ≤ d
unfolding high
more_few n len few pos zero some z = absurd (omega arith)
more_few n len few pos (suc d) some z = omega (arith, few d (high-some (n / 10) d pos z) z)

one_digit :
    (n a : ℕ) (m : ℕ → ℕ) (k : ℕ) → k < 1 → poke m a (n % 10 + 48) (a + k) ≡ high n k % 10 + 48
unfolding high
one_digit n a m zero lt = let z : a + 0 ≡ a = omega arith in rw z (poke-same m a (n % 10 + 48))
one_digit n a m (suc k) lt = absurd (omega arith)

pub write_digits-Wrote :
    (rounds n i s : ℕ) (m : ℕ → ℕ)
    → 0 < rounds
    → high n rounds ≡ 0
    → (len : ℕ) × (t : ℕ → ℕ) × (write_digits rounds n m s i ≡ done (i + len, t))
      × Wrote n (s + i) len m t
      × (len ≤ rounds)
unfolding write_digits high
write_digits-Wrote zero n i s m pos h = absurd (omega arith)
write_digits-Wrote (suc rounds) n i s m pos h = elim (Bool-cases (ltb 0 (n / 10))) [
  | inl more ↦
      let gt = ltb→lt 0 (n / 10) more in
      let (len, t, e, w, le) =
        write_digits-Wrote rounds (n / 10) (i + 1) s (poke m (s + i) (n % 10 + 48))
          (high-some (n / 10) rounds gt h) h in
      let one : i + 1 + len ≡ i + suc len = omega arith in
      rw more (
        suc len,
        t,
        e ∙ ap (λ (l : ℕ). done (l, t)) one,
        record {
          some_digit = omega arith;
          all_digits = w.all_digits;
          few = more_few n len w.few gt;
          digit = more_digits n i s m t len w;
          before = λ q lt.
              w.before q (omega (arith, lt))
              ∙ poke-other m (s + i) (n % 10 + 48) q (omega (arith, lt));
        },
        omega (arith, le),
      )
  | inr stop ↦
      let z : n / 10 ≡ 0 = ground (arith, stop) in
      rw stop (
        1,
        poke m (s + i) (n % 10 + 48),
        refl,
        record {
          some_digit = omega arith;
          all_digits = z;
          few = λ d some z. omega (arith, some);
          digit = one_digit n (s + i) m;
          before = λ q lt. poke-other m (s + i) (n % 10 + 48) q (omega (arith, lt));
        },
        omega arith,
      )
]
