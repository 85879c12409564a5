-- ===== src/Util/Number/Tests.antt =====
-- Numbers of one and ten digits, and a negative one, in memory that holds 1 everywhere.
use vk.Prelude.{[], ◌∷◌, ℕ, ◌≡◌, refl, done, arith, ◌>>=◌}
use vk.Util.Number.{utoa, itoa, atoi}
use vk.Util.Number.RoundTrip.{atoi-itoa}

abbrev memory : ℕ → ℕ
memory q = 1

utoa-last :
    (utoa 11 907 memory 100 >>= λ t. done (t 100 ∷ t 101 ∷ t 102 ∷ t 103 ∷ []))
    ≡ done (b'9' ∷ b'0' ∷ b'7' ∷ 0 ∷ [])
unfolding utoa
utoa-last = refl

-- -25
atoi-itoa_example :
    (t : ℕ → ℕ) × (itoa 12 4294967271 memory 100 ≡ done t) × (atoi 12 t 100 ≡ done 4294967271)
atoi-itoa_example = atoi-itoa 12 4294967271 memory 100 (omega arith) (omega arith)
