-- ===== src/Util/Queue/Remove.antt =====
-- `queue_remove` copies from the element that it is to remove, and not from the one behind it.
use vk.Prelude.{
  ℕ, zero, suc, ◌+◌, ◌-◌, ◌*◌, ◌<◌, ◌≡◌, ◌≢◌, refl, true, false, ◌∙◌, ap, List, [], ◌∷◌, ◌++◌, ◌==◌,
  ltb, length, length-append, arith, All,
}
use vk.Util.Queue.{Queue, search, queue_take, queue_remove}
use vk.Util.Queue.Fifo.{places, Holds}

search-places :
    (cells : ℕ → ℕ) (x : ℕ) (pre suf : List ℕ) (rounds i n : ℕ)
    → places cells (4 * i) n ≡ pre ++ (x ∷ suf)
    → All (λ y. y ≢ x) pre
    → length pre < rounds
    → (search rounds i cells x ≡ i + length pre) × (cells (4 * (i + length pre)) ≡ x)
unfolding search places
search-places cells x pre suf zero i n h miss fuel = elim fuel [ ]
search-places cells x [] suf (suc rounds) i zero h miss fuel = cc
search-places cells x [] suf (suc rounds) i (suc n) h miss fuel =
    let here : cells (4 * i) ≡ x = ground arith in
    let e : i + 0 ≡ i = omega arith in
    let hit : (cells (4 * i) == x) ≡ true = ground arith in rw (e, hit) (refl, here)
search-places cells x (y ∷ pre) suf (suc rounds) i zero h miss fuel = cc
search-places cells x (y ∷ pre) suf (suc rounds) i (suc n) h miss fuel =
    let here : cells (4 * i) ≡ y = ground arith in
    let pass : (cells (4 * i) == x) ≡ false = ground (arith, miss.0) in
    let rest : places cells (4 * i + 4) n ≡ pre ++ (x ∷ suf) = ground arith in
    let e : 4 * (i + 1) ≡ 4 * i + 4 = omega arith in
    let k : i + suc (length pre) ≡ i + 1 + length pre = omega arith in
    let ih =
      search-places cells x pre suf rounds (i + 1) n (ap (λ a. places cells a n) e ∙ rest) miss.1
        (omega arith) in
    rw (k, pass) ih

-- From a queue of two elements or more, of which `x` is one that is not the last, `queue_remove`
-- drops the elements in front of `x`, and what `queue_take` returns next is `x` itself.
pub queue_remove-keeps :
    (queue : Queue) (pre suf : List ℕ) (x y : ℕ)
    → Holds queue (pre ++ (x ∷ y ∷ suf))
    → All (λ z. z ≢ x) pre
    → (queue_take (queue_remove queue x)).0 ≡ x
unfolding queue_remove queue_take
queue_remove-keeps queue pre suf x y h miss =
    let len = length-append pre (x ∷ y ∷ suf) in
    let found =
      search-places queue.cells x pre (y ∷ suf) queue.size 0 (length (pre ++ (x ∷ y ∷ suf)))
        h.elements miss (omega (arith, len, h.room)) in
    let more : (queue.next == 0) ≡ false = ground (arith, h.end, len) in
    let still : (queue.next - 4 == 0) ≡ false = ground (arith, h.end, len) in
    let z : 0 + length pre ≡ length pre = omega arith in
    let inside : ltb 0 (queue.size - 1 - length pre) ≡ true = ground (arith, h.room, len) in
    let at : 0 + 4 * length pre ≡ 4 * (0 + length pre) = omega arith in
    rw (more, still, found.0, z, inside) (ap queue.cells at ∙ found.1)
