-- ===== src/Util/Queue/Fifo.antt =====
-- As long as the elements stand inside the cells of the queue it is first in, first out; they do
-- so only for a quarter of its size.
use vk.Prelude.{
  poke, ℕ, zero, suc, ◌+◌, ◌-◌, ◌*◌, ◌≤◌, ◌<◌, ◌≡◌, refl, false, ◌∙◌, ap, ap₂, List, [], ◌∷◌, ◌++◌,
  ◌==◌, length, length-append, arith,
}
use vk.Util.Queue.{Queue, move_down, queue_add, queue_take}

-- The elements in the `n` places from cell `i` on.
unfoldable pub places : (ℕ → ℕ) → ℕ → ℕ → List ℕ
places cells i zero = []
places cells i (suc n) = cells i ∷ places cells (i + 4) n

-- The queue holds the elements, and the places of all of them are cells of the queue.
pub record Holds (queue : Queue) (xs : List ℕ) : Type 0 where
  pub end : queue.next ≡ 4 * length xs
  pub elements : places queue.cells 0 (length xs) ≡ xs
  pub room : 4 * length xs ≤ queue.size + 3

places-poke :
    (cells : ℕ → ℕ) (a v i n : ℕ) → i + 4 * n ≤ a → places (poke cells a v) i n ≡ places cells i n
unfolding places
places-poke cells a v i zero h = refl
places-poke cells a v i (suc n) h =
    ap₂ ◌∷◌ (ground arith) (places-poke cells a v (i + 4) n (omega arith))

places-snoc :
    (cells : ℕ → ℕ) (i n a : ℕ)
    → a ≡ i + 4 * n
    → places cells i (suc n) ≡ places cells i n ++ (cells a ∷ [])
unfolding places
places-snoc cells i zero a h = ap (λ k. cells k ∷ []) (omega arith)
places-snoc cells i (suc n) a h =
    ap (λ (l : List ℕ). cells i ∷ l) (places-snoc cells (i + 4) n a (omega arith))

places-move_down :
    (cells : ℕ → ℕ) (m i n : ℕ)
    → i + 4 * n ≤ m + 3
    → places (move_down cells 4 m) i n ≡ places cells (i + 4) n
unfolding places
places-move_down cells m i zero h = refl
places-move_down cells m i (suc n) h =
    ap₂ ◌∷◌ (ground arith) (places-move_down cells m (i + 4) n (omega arith))

-- While the next place is still inside the queue, `queue_add` puts the element behind the others.
pub queue_add-Holds :
    (queue : Queue) (xs : List ℕ) (x : ℕ)
    → Holds queue xs
    → 4 * length xs < queue.size
    → Holds (queue_add queue x) (xs ++ (x ∷ []))
unfolding queue_add
queue_add-Holds queue xs x h room =
    let small : (queue.next == queue.size * 4 + 4) ≡ false = ground (arith, h.end) in
    let more = length-append xs (x ∷ []) in
    rw small (record {
      end = omega (arith, h.end, more);
      elements = rw more (grown ∙ ap (λ (l : List ℕ). l ++ (x ∷ [])) h.elements);
      room = omega (arith, more);
    })
  where
    cells : ℕ → ℕ
    cells = poke queue.cells queue.next x

    last : cells queue.next ≡ x
    last = ground arith

    one : length xs + 1 ≡ suc (length xs)
    one = omega arith

    grown : places cells 0 (length xs + 1) ≡ places queue.cells 0 (length xs) ++ (x ∷ [])
    grown =
        ap (places cells 0) one
        ∙ places-snoc cells 0 (length xs) queue.next (omega (arith, h.end))
        ∙ ap₂ (λ (l : List ℕ) (v : ℕ). l ++ (v ∷ []))
            (places-poke queue.cells queue.next x 0 (length xs) (omega (arith, h.end))) last

-- `queue_take` returns the first element and leaves the others in order.
pub queue_take-Holds :
    (queue : Queue) (x : ℕ) (xs : List ℕ)
    → Holds queue (x ∷ xs)
    → ((queue_take queue).0 ≡ x) × Holds (queue_take queue).1 xs
unfolding queue_take places
queue_take-Holds queue x xs h =
    let more : (queue.next == 0) ≡ false = ground (arith, h.end) in
    let parts : (queue.cells 0 ≡ x) × (places queue.cells 4 (length xs) ≡ xs) =
      ground (arith, h.elements) in
    rw more (
      parts.0,
      record {
        end = omega (arith, h.end);
        elements =
            places-move_down queue.cells (queue.size - 1) 0 (length xs) (omega (arith, h.room))
            ∙ parts.1;
        room = omega (arith, h.room);
      },
    )

-- With as many elements as a quarter of its size, rounded up, or more, but no more than its size,
-- `queue_add` does not let the queue grow and writes the element behind the cells of the queue.
pub queue_add-overrun :
    (queue : Queue) (m x : ℕ)
    → queue.next ≡ 4 * m
    → queue.size ≤ 4 * m
    → m ≤ queue.size
    → let grown = queue_add queue x in
      (grown.size ≡ queue.size) × (grown.cells queue.next ≡ x) × (queue.size ≤ queue.next)
unfolding queue_add
queue_add-overrun queue m x e small few =
    let full : (queue.next == queue.size * 4 + 4) ≡ false = ground arith in
    rw full (refl, ground arith, omega arith)
