-- ===== src/Util/Queue.antt =====
-- The queues of util/data_structs.c. `front` and `rear` point to pointers, so `front + sizeof(void*)`
-- is four cells further on: an element stands in every fourth cell. The cells are numbered from
-- `front` on; `next` is the cell behind which `rear` lies, `rear + 4`, so that an empty queue has
-- `next` 0. That `krealloc` may move the cells away from under `rear` is not modelled.
pub mod Fifo
pub mod Remove
mod Tests
use vk.Prelude.{
  poke, ℕ, ◌+◌, ◌-◌, ◌*◌, ◌^◌, ◌%◌, zero, suc, Bool, true, Option, none, some, List, [], ◌∷◌,
  if◌then◌else◌, ◌==◌, ltb,
}

-- `size` cells belong to the queue.
pub record Queue : Type 0 where
  pub cells : ℕ → ℕ
  pub next : ℕ
  pub size : ℕ

-- sizeof(void*)
abbrev pub stride : ℕ
stride = 4

pub queue_init : (ℕ → ℕ) → ℕ → Queue
queue_init cells size = record { cells = cells; next = 0; size = size }

-- `memcpy` of `4 * n` bytes, so `n` cells, from cell `from` to the front.
abbrev pub move_down : (ℕ → ℕ) → ℕ → ℕ → ℕ → ℕ
move_down cells from n q = if ltb q n then cells (q + from) else cells q

pub queue_add : Queue → ℕ → Queue
queue_add queue element =
    let size =
      if queue.next == queue.size * stride + stride then queue.size * 2 % 2 ^ 32 else queue.size in
    record { cells = poke queue.cells queue.next element; next = queue.next + stride; size = size }

-- 0 if the queue is empty.
pub queue_take : Queue → ℕ × Queue
queue_take queue = if queue.next == 0 then (0, queue) else (
  queue.cells 0,
  record queue {
    cells = move_down queue.cells stride (queue.size - 1);
    next = queue.next - stride;
  },
)

-- The loop of `queue_remove`: the first `i` with the element in cell `4 * i`, or `size`.
pub search : ℕ → ℕ → (ℕ → ℕ) → ℕ → ℕ
search zero i cells element = i
search (suc rounds) i cells element =
    let rest = search rounds (i + 1) cells element in
    if cells (stride * i) == element then i else rest

pub queue_remove : Queue → ℕ → Queue
unfolding search
queue_remove queue element =
    if queue.next == 0
    then queue
    else (let i = search queue.size 0 queue.cells element in
        record queue {
          cells = move_down queue.cells (stride * i) (queue.size - 1 - i);
          next = queue.next - stride;
        })
