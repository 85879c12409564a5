-- ===== src/Util/Queue/Tests.antt =====
-- A queue as the scheduler makes it, of size 10, with two elements.
use vk.Prelude.{◌≡◌, refl, [], ◌∷◌, arith, if◌then◌else◌, ◌==◌}
use vk.Util.Queue.{Queue, queue_init, queue_add, queue_take}
use vk.Util.Queue.Fifo.{places, Holds}

abbrev two : Queue
two = record { cells = λ q. if q == 0 then 70 else if q == 4 then 71 else 0; next = 8; size = 10 }

two-added : (queue_take (queue_add (queue_add (queue_init (λ q. 0) 10) 70) 71)).0 ≡ 70
unfolding queue_take queue_add queue_init
two-added = refl

two-Holds : Holds two (70 ∷ 71 ∷ [])
unfolding places
two-Holds = record { end = refl; elements = refl; room = omega arith }
