-- ===== src/Util/Number.antt =====
-- The conversions between numbers and strings of util/lib.c. A string stands in memory from an
-- address on, up to its first byte 0. An `int` is its two's complement, so that an overflow wraps
-- around.
pub mod Digits
pub mod Reverse
pub mod RoundTrip
mod Tests
use vk.Prelude.{
  ℕ, ◌+◌, ◌-◌, ◌*◌, ◌/◌, ◌%◌, ◌^◌, zero, suc, Bool, true, false, not, if◌then◌else◌, ◌==◌, ltb, leb,
  ◌&&◌, ◌||◌, poke, Outcome, done, no_fuel, ◌>>=◌,
}

pub strlen : ℕ → (ℕ → ℕ) → ℕ → Outcome ℕ
strlen zero m str = no_fuel
strlen (suc rounds) m str =
    let rest = strlen rounds m (str + 1) in
    if m str == 0 then done 0 else rest >>= λ n. done (n + 1)

-- The loop of `reverse`.
pub swap_ends : ℕ → (ℕ → ℕ) → ℕ → ℕ → ℕ → Outcome (ℕ → ℕ)
swap_ends zero m s i j = no_fuel
swap_ends (suc rounds) m s i j =
    let c = m (s + i) in
    let rest = swap_ends rounds (poke (poke m (s + i) (m (s + j))) (s + j) c) s (i + 1) (j - 1) in
    if ltb i j then rest else done m

pub reverse : ℕ → (ℕ → ℕ) → ℕ → Outcome (ℕ → ℕ)
unfolding strlen swap_ends
reverse rounds m s = strlen rounds m s >>= λ n. swap_ends rounds m s 0 ((n + (2 ^ 32 - 1)) % 2 ^ 32)

-- The loop of `utoa`: the digits with the last one first, and how many there are.
pub write_digits : ℕ → ℕ → (ℕ → ℕ) → ℕ → ℕ → Outcome (ℕ × (ℕ → ℕ))
write_digits zero n m s i = no_fuel
write_digits (suc rounds) n m s i =
    let m' = poke m (s + i) (n % 10 + b'0') in
    let rest = write_digits rounds (n / 10) m' s (i + 1) in
    if ltb 0 (n / 10) then rest else done (i + 1, m')

pub utoa : ℕ → ℕ → (ℕ → ℕ) → ℕ → Outcome (ℕ → ℕ)
unfolding write_digits reverse
utoa rounds n m s = write_digits rounds n m s 0 >>= λ (i, m'). reverse rounds (poke m' (s + i) 0) s

pub itoa : ℕ → ℕ → (ℕ → ℕ) → ℕ → Outcome (ℕ → ℕ)
unfolding utoa
itoa rounds n m s =
    if leb (2 ^ 31) n then utoa rounds (2 ^ 32 - n) (poke m s b'-') (s + 1) else utoa rounds n m s

-- The loop of `atoiindex`: the number, the position behind it, and whether there was a sign.
unfoldable pub read_digits : ℕ → (ℕ → ℕ) → ℕ → ℕ → ℕ → Bool → Outcome (ℕ × ℕ × Bool)
read_digits zero m s i num sign = no_fuel
read_digits (suc rounds) m s i num sign =
    let c = m (s + i) in
    let digit = leb b'0' c && leb c b'9' in
    let minus = (m s == b'-') && (i == 0) in
    let rest =
      read_digits rounds m s (i + 1) (if digit then (num * 10 + (c - b'0')) % 2 ^ 32 else num)
        (sign || not digit) in
    if c == 0 then done (num, i, sign) else if digit || minus then rest else done (num, i, sign)

unfoldable pub atoiindex : ℕ → (ℕ → ℕ) → ℕ → Outcome (ℕ × ℕ)
unfolding read_digits
atoiindex rounds m s = read_digits rounds m s 0 0 false >>= λ (num, i, sign).
    done (if sign then (2 ^ 32 - num) % 2 ^ 32 else num, i)

pub atoi : ℕ → (ℕ → ℕ) → ℕ → Outcome ℕ
unfolding atoiindex
atoi rounds m s = atoiindex rounds m s >>= λ (num, i). done num
