-- ===== src/Memory/PageHeap/Tests.antt =====
-- A page heap with its first page taken.
use vk.Prelude.{ℕ, zero, suc, ◌≡◌, refl, List, [], ◌∷◌, done}
use vk.Memory.PageHeap.{PageHeap, take_free}

abbrev zeros : ℕ → List ℕ
zeros zero = []
zeros (suc n) = 0 ∷ zeros n

abbrev one_taken : PageHeap
one_taken = record { blocks = 1 ∷ zeros 1023; memory = λ a. 7 }

second_page : take_free 0 (1 ∷ 0 ∷ []) ≡ done (1, 1 ∷ 1 ∷ [])
unfolding take_free
second_page = refl
