-- ===== src/Tasking/Signal/Tests.antt =====
-- Process 2 is stopped and continued by process 3.
use vk.Prelude.{
  ℕ, ◌≡◌, refl, none, some, List, [], ◌∷◌, if◌then◌else◌, ◌==◌, All, done, arith, ◌||◌,
}
use vk.Tasking.Signal.{Process, Event, resumes, suspends, Signals, handle_signals}
use vk.Tasking.Signal.Delivery.{IsProcess, IsSpared, handle_signals-Handled}
use vk.Tasking.Signal.Stop.{handle_signals-stop_continue}

abbrev running : Process
running = record { status = 1; signal_handlers = λ sig. 0 }

abbrev stopping : Signals
stopping = record {
  processes = λ pid. if (pid == 2) || (pid == 3) then some running else none;
  signal_list = (2, 16) ∷ (2, 5) ∷ [];
  current_process = 3;
}

handle_signals-Handled_example :
    (events : List Event) × (t : Signals) × (handle_signals stopping ≡ done (events, t))
    × (t.signal_list ≡ [])
    × All IsSpared events
    × ((pid : ℕ) → IsProcess stopping pid → IsProcess t pid)
handle_signals-Handled_example =
    handle_signals-Handled stopping (
      (omega arith, omega arith, (running, refl)),
      ((omega arith, omega arith, (running, refl)), tt),
    )

handle_signals-stop_continue_example :
    (t : Signals) × (handle_signals stopping ≡ done (suspends 2 ∷ resumes 2 ∷ [], t))
    × (t.processes 2 ≡ some running)
    × (t.signal_list ≡ [])
handle_signals-stop_continue_example =
    handle_signals-stop_continue 2 16 stopping running refl refl refl refl refl (omega arith)
