-- ===== src/Tasking/Signal.antt =====
-- tasking/processes/signal.c. A process is named by its pid. What the scheduler does with a process
-- is an event: it resumes, it is suspended, or a thread is added to it that calls `exit_process`.
pub mod Delivery
pub mod Stop
mod Tests
use vk.Prelude.{
  ℕ, ◌+◌, ◌%◌, zero, suc, Bool, true, false, not, Option, none, some, List, [], ◌∷◌, ◌++◌,
  if◌then◌else◌, ◌==◌, ltb, get_or, ◌&&◌, ◌||◌, Outcome, done, wild, ◌>>=◌,
}

pub record Process : Type 0 where
  pub status : ℕ
  pub signal_handlers : ℕ → ℕ

-- The argument of `exits` behind the pid is the exit condition.
pub data Event : Type 0 where
  resumes : ℕ → Event
  suspends : ℕ → Event
  exits : ℕ → ℕ → Event

pub record Signals : Type 0 where
  pub processes : ℕ → Option Process
  pub signal_list : List (ℕ × ℕ)
  pub current_process : ℕ

abbrev pub process_status_running : ℕ
process_status_running = 1

abbrev pub process_status_asleep_signal : ℕ
process_status_asleep_signal = 3

abbrev pub process_status_zombie : ℕ
process_status_zombie = 10

abbrev pub nsig : ℕ
nsig = 29

abbrev pub sigcont : ℕ
sigcont = 5

-- 1 is to exit, 2 to ignore the signal, 4 to stop.
abbrev pub default_action : ℕ → ℕ
default_action sig =
    get_or
      (2 ∷ 1 ∷ 1 ∷ 1 ∷ 2 ∷ 2 ∷ 1 ∷ 1 ∷ 1 ∷ 1 ∷ 1 ∷ 1 ∷ 1 ∷ 1 ∷ 4 ∷ 1 ∷ 4 ∷ 4 ∷ 4 ∷ 1 ∷ 1 ∷ 1 ∷ 1 ∷ 1
        ∷ 1 ∷ 2 ∷ 1 ∷ 1 ∷ 1 ∷ [])
      sig 0

-- The action of SIG_DFL.
pub act_by_default : ℕ → Bool → ℕ → Process → List Event × Process
act_by_default pid is_current sig process =
    if default_action sig == 1
    then (if pid == 1 then ([], process) else (exits pid (512 + sig % 256) ∷ [], process))
    else if default_action sig == 2
    then ([], process)
    else if default_action sig == 4
    then (if not is_current && (process.status == process_status_running)
        then (suspends pid ∷ [], record process { status = process_status_asleep_signal })
        else ([], process))
    else ([], process)

-- SIGCONT, whatever the handler. `scheduler_add_process` sets the status.
pub continue_process : ℕ → ℕ → Process → List Event × Process
continue_process pid sig process =
    if (sig == sigcont) && (process.status == process_status_asleep_signal)
    then (resumes pid ∷ [], record process { status = process_status_running })
    else ([], process)

-- What `handle_signal` does with the process. A handler of its own is not called.
pub react : ℕ → Bool → ℕ → Process → List Event × Process
unfolding act_by_default continue_process
react pid is_current sig process =
    let (continued, process') = continue_process pid sig process in
    let (acted, process'') = act_by_default pid is_current sig process' in
    if process.status == process_status_zombie
    then ([], process)
    else if process.signal_handlers sig == 0
    then (continued ++ acted, process'')
    else (continued, process')

abbrev pub set_process : ℕ → Process → (ℕ → Option Process) → ℕ → Option Process
set_process pid process processes q = if pid == q then some process else processes q

abbrev pub handle_found : ℕ → ℕ → Signals → Option Process → Outcome (List Event × Signals)
handle_found pid sig s none = wild
handle_found pid sig s (some process) =
    let (events, process') = react pid (pid == s.current_process) sig process in
    done (events, record s { processes = set_process pid process' s.processes })

pub handle_signal : ℕ → ℕ → Signals → Outcome (List Event × Signals)
unfolding react
handle_signal pid sig s = handle_found pid sig s (s.processes pid)

-- The loop of `handle_signals`.
pub handle_all : List (ℕ × ℕ) → Signals → Outcome (List Event × Signals)
unfolding handle_signal
handle_all [] s = done ([], s)
handle_all ((pid, sig) ∷ rest) s = handle_signal pid sig s >>= λ (events, s').
    handle_all rest (record s' { signal_list = rest }) >>= λ (later, s'').
    done (events ++ later, s'')

pub handle_signals : Signals → Outcome (List Event × Signals)
unfolding handle_all
handle_signals s = handle_all s.signal_list s

abbrev pub send_found : ℕ → ℕ → Signals → Option Process → Outcome Signals
send_found pid sig s none = wild
send_found pid sig s (some process) =
    if process.status == process_status_zombie
    then done s
    else if (sig == 0) || not (ltb sig nsig)
    then done s
    else done (record s { signal_list = s.signal_list ++ ((pid, sig) ∷ []) })

pub send_signal : ℕ → ℕ → Signals → Outcome Signals
send_signal pid sig s = send_found pid sig s (s.processes pid)

-- The loop over the processes of the group.
pub send_all : List ℕ → ℕ → Signals → Outcome Signals
unfolding send_signal
send_all [] sig s = done s
send_all (pid ∷ pids) sig s = send_signal pid sig s >>= λ s'. send_all pids sig s'

-- With the processes of the group that `get_group` finds.
pub send_signal_to_group : Option (List ℕ) → ℕ → Signals → Outcome Signals
unfolding send_all
send_signal_to_group none sig s = if (sig == 0) || not (ltb sig nsig) then done s else wild
send_signal_to_group (some pids) sig s =
    if (sig == 0) || not (ltb sig nsig) then done s else send_all pids sig s
