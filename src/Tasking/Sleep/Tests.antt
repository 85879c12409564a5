-- ===== src/Tasking/Sleep/Tests.antt =====
-- Threads that sleep for 100 and, behind it, for 0 and 30 more.
use vk.Prelude.{ℕ, ◌+◌, ◌≡◌, refl, List, [], ◌∷◌, arith}
use vk.Tasking.Sleep.{Wait, Sleepers, scheduler_sleep_update}
use vk.Tasking.Sleep.Ticks.{ticks, Woke, scheduler_sleep_update-wakes}

abbrev first : Wait
first = record { thread = (1, 1); time = 100 }

abbrev others : List Wait
others = record { thread = (1, 2); time = 0 } ∷ record { thread = (2, 1); time = 30 } ∷ []

abbrev three : Sleepers
three = record { wait_list = first ∷ others; irq_list = λ irq. []; status = λ t. 2 }

two-wake : (ticks 2 three).0 ≡ (1, 1) ∷ (1, 2) ∷ []
unfolding ticks scheduler_sleep_update
two-wake = refl

scheduler_sleep_update-wakes_example :
    ((ticks 1 three).0 ≡ [])
    × (woken : List (ℕ × ℕ)) × ((ticks (1 + 1) three).0 ≡ (1, 1) ∷ woken)
    × Woke others woken (ticks (1 + 1) three).1.wait_list
scheduler_sleep_update-wakes_example =
    scheduler_sleep_update-wakes 1 three first others refl (omega arith) (omega arith)
