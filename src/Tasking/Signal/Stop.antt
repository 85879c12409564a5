-- ===== src/Tasking/Signal/Stop.antt =====
-- Signals that stop a process and continue it.
use vk.Prelude.{
  ℕ, ◌≡◌, ◌≢◌, refl, sym, ap, subst, ◌∙◌, Bool, true, false, some, List, [], ◌∷◌, ◌++◌, ◌==◌, done,
  Bool-cases, inl, inr, arith, ne→==, ==→eq,
}
use vk.Tasking.Signal.{
  Process, Event, resumes, suspends, Signals, default_action, act_by_default, continue_process,
  react, set_process, handle_all, handle_signals,
}
use vk.Tasking.Signal.Delivery.{handle_all-step}

handle_all-react :
    (pid sig : ℕ) (rest : List (ℕ × ℕ)) (s t : Signals) (process : Process) (events : List Event)
    (reaction : List Event × Process)
    → s.processes pid ≡ some process
    → react pid (pid == s.current_process) sig process ≡ reaction
    → handle_all rest
        (record s { processes = set_process pid reaction.1 s.processes; signal_list = rest })
      ≡ done (events, t)
    → handle_all ((pid, sig) ∷ rest) s ≡ done (reaction.0 ++ events, t)
handle_all-react pid sig rest s t process events reaction e r =
    subst
      (λ (x : List Event × Process).
        handle_all rest
            (record s { processes = set_process pid x.1 s.processes; signal_list = rest })
          ≡ done (events, t)
        → handle_all ((pid, sig) ∷ rest) s ≡ done (x.0 ++ events, t))
      r (handle_all-step pid sig rest s t process events e)

stops-not_continues : (sig : ℕ) → default_action sig ≡ 4 → (sig == 5) ≡ false
stops-not_continues sig stop = elim (Bool-cases (sig == 5)) [
  | inl a ↦
      let two : default_action sig ≡ 2 = ap default_action (==→eq sig 5 a) in
      absurd (omega (arith, two, stop))
  | inr a ↦ a
]

react-stops :
    (pid sig : ℕ) (process : Process)
    → process.status ≡ 1
    → default_action sig ≡ 4
    → process.signal_handlers sig ≡ 0
    → react pid false sig process ≡ (suspends pid ∷ [], record process { status = 3 })
unfolding react act_by_default continue_process
react-stops pid sig process run stop handler =
    rw (stops-not_continues sig stop, stop, handler, run) refl

react-continues :
    (pid : ℕ) (is_current : Bool) (process : Process)
    → process.status ≡ 3
    → react pid is_current 5 process ≡ (resumes pid ∷ [], record process { status = 1 })
unfolding react act_by_default continue_process
react-continues pid is_current process asleep = elim (Bool-cases (process.signal_handlers 5 == 0)) [
  | inl a ↦ rw (a, asleep) refl
  | inr a ↦ rw (a, asleep) refl
]

-- A running process, other than the one that runs now and without a handler for the signal, is
-- suspended by a signal whose default action is to stop; when SIGCONT comes next, whatever its
-- handler, the process is resumed and is as it was.
pub handle_signals-stop_continue :
    (pid sig : ℕ) (s : Signals) (process : Process)
    → s.signal_list ≡ (pid, sig) ∷ (pid, 5) ∷ []
    → s.processes pid ≡ some process
    → process.status ≡ 1
    → default_action sig ≡ 4
    → process.signal_handlers sig ≡ 0
    → pid ≢ s.current_process
    → (t : Signals) × (handle_signals s ≡ done (suspends pid ∷ resumes pid ∷ [], t))
      × (t.processes pid ≡ some process)
      × (t.signal_list ≡ [])
unfolding handle_signals handle_all
handle_signals-stop_continue pid sig s process l e run stop handler other =
    let asleep : Process = record process { status = 3 } in
    let s' : Signals = record s {
      processes = set_process pid asleep s.processes;
      signal_list = (pid, 5) ∷ [];
    } in
    let t : Signals = record s {
      processes =
          set_process pid (record process { status = 1 }) (set_process pid asleep s.processes);
      signal_list = [];
    } in
    let same : (pid == pid) ≡ true = ground arith in
    let second : handle_all ((pid, 5) ∷ []) s' ≡ done (resumes pid ∷ [], t) =
      handle_all-react pid 5 [] s' t asleep [] _ (rw same refl)
        (react-continues pid (pid == s.current_process) asleep refl) refl in
    let reaction : react pid (pid == s.current_process) sig process ≡ (suspends pid ∷ [], asleep) =
      rw (ne→== pid s.current_process other) (react-stops pid sig process run stop handler) in
    let first =
      handle_all-react pid sig ((pid, 5) ∷ []) s t process (resumes pid ∷ []) _ e reaction second in
    (
      t,
      ap (λ (q : List (ℕ × ℕ)). handle_all q s) l ∙ first,
      rw same (ap (λ (k : ℕ). some (record process { status = k })) (sym run)),
      refl,
    )
