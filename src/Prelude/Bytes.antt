-- ===== src/Prelude/Bytes.antt =====
-- Runs of bytes in memory.
use Prim.Native.Nat.{ℕ, zero, suc, ◌+◌, ◌-◌, ◌*◌, ◌/◌, ◌%◌, ◌^◌, ◌≤◌, ◌<◌}
use mathlib.Core.Logic.{◌⊎◌, inl, inr}
use mathlib.Core.Path.{◌≡◌, refl, ap, ap₂, subst, ◌∙◌}
use mathlib.Core.Bool.{◌&&◌}
use mathlib.Core.List.{List, [], ◌∷◌, ◌++◌, append_assoc}
use native.Mathlib.Omega.{arith}
use vk.Prelude.Tests.{poke, ltb, leb, if◌then◌else◌}
use vk.Prelude.Lists.{length, get_or, take, length-append}

-- The first `n` bytes of a buffer from `off` on.
unfoldable pub bytes : (ℕ → ℕ) → ℕ → ℕ → List ℕ
bytes b off zero = []
bytes b off (suc n) = b off ∷ bytes b (off + 1) n

-- `memcpy(b + off, src, n)` of the `n` bytes of a list
abbrev pub copy_in : (ℕ → ℕ) → ℕ → List ℕ → ℕ → ℕ
copy_in b off src q = if leb off q && ltb q (off + length src) then get_or src (q - off) 0 else b q

pub bytes-copy_in_before :
    (b : ℕ → ℕ) (off : ℕ) (src : List ℕ) (i m : ℕ)
    → i + m ≤ off
    → bytes (copy_in b off src) i m ≡ bytes b i m
unfolding bytes
bytes-copy_in_before b off src i zero h = refl
bytes-copy_in_before b off src i (suc m) h =
    ap₂ ◌∷◌ (ground arith) (bytes-copy_in_before b off src (i + 1) m (omega arith))

pub get_or-append : (pre suf : List ℕ) (x : ℕ) → get_or (pre ++ (x ∷ suf)) (length pre) 0 ≡ x
get_or-append [] suf x = refl
get_or-append (y ∷ pre) suf x = get_or-append pre suf x

pub bytes-copy_in :
    (b : ℕ → ℕ) (off i : ℕ) (pre suf : List ℕ)
    → i ≡ off + length pre
    → bytes (copy_in b off (pre ++ suf)) i (length suf) ≡ suf
unfolding bytes
bytes-copy_in b off i pre [] e = refl
bytes-copy_in b off i pre (x ∷ suf) e = ap₂ ◌∷◌ (here) (
    subst (λ (l : List ℕ). bytes (copy_in b off l) (i + 1) (length suf) ≡ suf)
      (append_assoc pre (x ∷ []) suf)
      (bytes-copy_in b off (i + 1) (pre ++ (x ∷ [])) suf
        (omega (arith, e, length-append pre (x ∷ [])))))
  where
    at : i - off ≡ length pre
    at = omega (arith, e)

    here : copy_in b off (pre ++ (x ∷ suf)) i ≡ x
    here = ground (arith, at, e, length-append pre (x ∷ suf), get_or-append pre suf x)

pub bytes-append : (b : ℕ → ℕ) (i m n : ℕ) → bytes b i (m + n) ≡ bytes b i m ++ bytes b (i + m) n
unfolding bytes
bytes-append b i zero n = ap₂ (bytes b) (omega arith) (omega arith)
bytes-append b i (suc m) n =
    let e : suc m + n ≡ suc (m + n) = omega arith in
    ap (bytes b i) e
    ∙ ap (λ (l : List ℕ). b i ∷ l)
        (bytes-append b (i + 1) m n ∙ ap (λ k. bytes b (i + 1) m ++ bytes b k n) (omega arith))

pub bytes-copy_in_behind :
    (b : ℕ → ℕ) (off : ℕ) (src : List ℕ) (i m : ℕ)
    → off + length src ≤ i
    → bytes (copy_in b off src) i m ≡ bytes b i m
unfolding bytes
bytes-copy_in_behind b off src i zero h = refl
bytes-copy_in_behind b off src i (suc m) h =
    ap₂ ◌∷◌ (ground arith) (bytes-copy_in_behind b off src (i + 1) m (omega arith))

pub length-bytes : (m : ℕ → ℕ) (a n : ℕ) → length (bytes m a n) ≡ n
unfolding bytes
length-bytes m a zero = refl
length-bytes m a (suc n) = ap suc (length-bytes m (a + 1) n)

pub take-bytes : (m : ℕ → ℕ) (a n k : ℕ) → n ≤ k → take n (bytes m a k) ≡ bytes m a n
unfolding bytes
take-bytes m a zero k h = refl
take-bytes m a (suc n) zero h = absurd (omega arith)
take-bytes m a (suc n) (suc k) h =
    ap (λ (l : List ℕ). m a ∷ l) (take-bytes m (a + 1) n k (omega arith))

pub get_or-bytes : (m : ℕ → ℕ) (a n k : ℕ) → k < n → get_or (bytes m a n) k 0 ≡ m (a + k)
unfolding bytes
get_or-bytes m a zero k lt = absurd (omega arith)
get_or-bytes m a (suc n) zero lt = ap m (omega arith)
get_or-bytes m a (suc n) (suc k) lt = get_or-bytes m (a + 1) n k (omega arith) ∙ ap m (omega arith)

-- Numbers in memory, the lowest byte first.
abbrev pub u16_at : (ℕ → ℕ) → ℕ → ℕ
u16_at m a = m a + 256 * m (a + 1)

abbrev pub u32_at : (ℕ → ℕ) → ℕ → ℕ
u32_at m a = u16_at m a + 2 ^ 16 * u16_at m (a + 2)

abbrev pub put_u16 : (ℕ → ℕ) → ℕ → ℕ → ℕ → ℕ
put_u16 m a v = poke (poke m a (v % 256)) (a + 1) (v / 256 % 256)

abbrev pub put_u32 : (ℕ → ℕ) → ℕ → ℕ → ℕ → ℕ
put_u32 m a v = put_u16 (put_u16 m a (v % 2 ^ 16)) (a + 2) (v / 2 ^ 16)

pub u32_at-put_u32 : (m : ℕ → ℕ) (a v : ℕ) → v < 2 ^ 32 → u32_at (put_u32 m a v) a ≡ v
u32_at-put_u32 m a v h = ground arith

pub u32_at-put_u32_other :
    (m : ℕ → ℕ) (a v b : ℕ) → (b + 4 ≤ a) ⊎ (a + 4 ≤ b) → u32_at (put_u32 m a v) b ≡ u32_at m b
u32_at-put_u32_other m a v b (inl h) = ground arith
u32_at-put_u32_other m a v b (inr h) = ground arith
