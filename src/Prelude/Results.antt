-- ===== src/Prelude/Results.antt =====
-- What a call of kernel code comes to: a result, or the way in which it stops.

-- The calls of `fatal_kernel_error`, which prints its message and stops the machine, by message.
pub data Halt : Type 0 where
  unknown_block : Halt
  heap_full : Halt
  realloc_less : Halt
  no_physical : Halt
  not_freeable : Halt
  no_block : Halt
  not_present : Halt
  no_virtual : Halt
  page_heap_full : Halt
  not_aligned : Halt
  table_mapped : Halt
  page_mapped : Halt
  page_not_mapped : Halt

-- `wild` is a read or write through a pointer that leads to no object of the model; `no_fuel` says
-- that a loop was not given enough rounds.
pub data Outcome {ℓ} (A : Type ℓ) : Type ℓ where
  done : A → Outcome A
  fatal : Halt → Outcome A
  wild : Outcome A
  no_fuel : Outcome A

infixl 5 ◌>>=◌
abbrev pub ◌>>=◌ {ℓ κ} : {A : Type ℓ} {B : Type κ} → Outcome A → (A → Outcome B) → Outcome B
done a >>= f = f a
fatal e >>= f = fatal e
wild >>= f = wild
no_fuel >>= f = no_fuel
