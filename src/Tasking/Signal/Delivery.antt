-- ===== src/Tasking/Signal/Delivery.antt =====
-- The signals that are sent can be handled, and all of them are.
use vk.Prelude.{
  ℕ, ◌+◌, ◌%◌, ◌<◌, ◌≡◌, ◌≢◌, refl, ap, ◌∙◌, Bool, true, false, not, some, List, [], ◌∷◌, ◌++◌,
  if◌then◌else◌, ◌==◌, ltb, ◌&&◌, ◌||◌, All, Outcome, done, ◌>>=◌, Bool-cases, inl, inr, arith,
  ==→ne,
}
use vk.Tasking.Signal.{
  Process, Event, resumes, suspends, exits, Signals, default_action, act_by_default,
  continue_process, react, set_process, handle_found, handle_signal, handle_all, handle_signals,
  send_signal,
}

abbrev pub IsProcess : Signals → ℕ → Type 0
IsProcess s pid = (process : Process) × (s.processes pid ≡ some process)

-- Each signal of the list is an index of the handlers and the default actions, and its process
-- exists.
abbrev pub IsSound : Signals → List (ℕ × ℕ) → Type 0
IsSound s = All (λ (entry : ℕ × ℕ). (0 < entry.1) × (entry.1 < 29) × IsProcess s entry.0)

abbrev pub IsSpared : Event → Type 0
IsSpared (resumes pid) = Unit
IsSpared (suspends pid) = Unit
IsSpared (exits pid condition) = pid ≢ 1

All-append : (xs ys : List Event) → All IsSpared xs → All IsSpared ys → All IsSpared (xs ++ ys)
All-append [] ys p q = q
All-append (x ∷ xs) ys p q = (p.0, All-append xs ys p.1 q)

-- No event of the reaction makes process 1 exit.
record IsSparing (reaction : List Event × Process) : Type 0 where
  events : All IsSpared reaction.0

if-IsSparing :
    (b : Bool) (x y : List Event × Process)
    → IsSparing x
    → IsSparing y
    → IsSparing (if b then x else y)
if-IsSparing true x y p q = p
if-IsSparing false x y p q = q

quiet : (process : Process) → IsSparing ([], process)
quiet process = record { events = tt }

suspends-IsSparing : (pid : ℕ) (process : Process) → IsSparing (suspends pid ∷ [], process)
suspends-IsSparing pid process = record { events = (tt, tt) }

resumes-IsSparing : (pid : ℕ) (process : Process) → IsSparing (resumes pid ∷ [], process)
resumes-IsSparing pid process = record { events = (tt, tt) }

exits-IsSparing :
    (pid condition : ℕ) (process : Process)
    → IsSparing (if pid == 1 then ([], process) else (exits pid condition ∷ [], process))
exits-IsSparing pid condition process = elim (Bool-cases (pid == 1)) [
  | inl e ↦ rw e (quiet process)
  | inr ne ↦ rw ne (record { events = (==→ne pid 1 ne, tt) })
]

act_by_default-IsSparing :
    (pid : ℕ) (is_current : Bool) (sig : ℕ) (process : Process)
    → IsSparing (act_by_default pid is_current sig process)
unfolding act_by_default
act_by_default-IsSparing pid is_current sig process =
    if-IsSparing (default_action sig == 1) _ _ (exits-IsSparing pid (512 + sig % 256) process) (
      if-IsSparing (default_action sig == 2) _ _ (quiet process) (
        if-IsSparing (default_action sig == 4) _ _
          (if-IsSparing (not is_current && (process.status == 1)) _ _
            (suspends-IsSparing pid (record process { status = 3 })) (quiet process))
          (quiet process)))

continue_process-IsSparing :
    (pid sig : ℕ) (process : Process) → IsSparing (continue_process pid sig process)
unfolding continue_process
continue_process-IsSparing pid sig process =
    if-IsSparing ((sig == 5) && (process.status == 3)) _ _
      (resumes-IsSparing pid (record process { status = 1 })) (quiet process)

react-IsSparing :
    (pid : ℕ) (is_current : Bool) (sig : ℕ) (process : Process)
    → IsSparing (react pid is_current sig process)
unfolding react
react-IsSparing pid is_current sig process =
    let continued = continue_process pid sig process in
    let acted = act_by_default pid is_current sig continued.1 in
    if-IsSparing (process.status == 10) _ _ (quiet process) (
      if-IsSparing (process.signal_handlers sig == 0) (continued.0 ++ acted.0, acted.1) continued
        (record {
          events =
              All-append continued.0 acted.0 (continue_process-IsSparing pid sig process).events
                (act_by_default-IsSparing pid is_current sig continued.1).events;
        })
        (continue_process-IsSparing pid sig process))

-- What a loop of `handle_signals` over sound entries comes to.
record Handled (s t : Signals) (events : List Event) : Type 0 where
  nothing_left : t.signal_list ≡ []
  spared : All IsSpared events
  alive : (q : ℕ) → IsProcess s q → IsProcess t q

IsProcess-update :
    (pid : ℕ) (process : Process) (s : Signals) (q : ℕ)
    → IsProcess s q
    → IsProcess (record s { processes = set_process pid process s.processes }) q
IsProcess-update pid process s q (old, e) = elim (Bool-cases (pid == q)) [
  | inl same ↦ (process, rw same refl)
  | inr other ↦ (old, rw other e)
]

IsSound-update :
    (pid : ℕ) (process : Process) (s : Signals) (list rest : List (ℕ × ℕ))
    → IsSound s list
    → IsSound
        (record s { processes = set_process pid process s.processes; signal_list = rest })
        list
IsSound-update pid process s [] rest h = tt
IsSound-update pid process s (entry ∷ list) rest h = (
  (h.0.0, h.0.1, IsProcess-update pid process s entry.0 h.0.2),
  IsSound-update pid process s list rest h.1,
)

pub handle_all-step :
    (pid sig : ℕ) (rest : List (ℕ × ℕ)) (s t : Signals) (process : Process) (events : List Event)
    → s.processes pid ≡ some process
    → let reaction = react pid (pid == s.current_process) sig process in
      handle_all rest
          (record s { processes = set_process pid reaction.1 s.processes; signal_list = rest })
        ≡ done (events, t)
      → handle_all ((pid, sig) ∷ rest) s
        ≡ done ((react pid (pid == s.current_process) sig process).0 ++ events, t)
unfolding handle_all handle_signal
handle_all-step pid sig rest s t process events e later =
    let reaction = react pid (pid == s.current_process) sig process in
    let s' : Signals = record s { processes = set_process pid reaction.1 s.processes } in
    ap
      (λ (r : Outcome (List Event × Signals)). r >>= λ (now, u).
        handle_all rest (record u { signal_list = rest }) >>= λ (next, v). done (now ++ next, v))
      (ap (handle_found pid sig s) e)
    ∙ ap (λ (r : Outcome (List Event × Signals)). r >>= λ (next, v). done (reaction.0 ++ next, v))
        later

handle_all-Handled :
    (list : List (ℕ × ℕ)) (s : Signals)
    → s.signal_list ≡ list
    → IsSound s list
    → (events : List Event) × (t : Signals) × (handle_all list s ≡ done (events, t))
      × Handled s t events
unfolding handle_all
handle_all-Handled [] s l h =
    ([], s, refl, record { nothing_left = l; spared = tt; alive = λ q old. old })
handle_all-Handled ((pid, sig) ∷ rest) s l h =
    let (process, e) = h.0.2 in
    let reaction = react pid (pid == s.current_process) sig process in
    let (events, t, e', later) =
      handle_all-Handled rest
        (record s { processes = set_process pid reaction.1 s.processes; signal_list = rest }) refl
        (IsSound-update pid reaction.1 s rest rest h.1) in
    (
      reaction.0 ++ events,
      t,
      handle_all-step pid sig rest s t process events e e',
      record {
        nothing_left = later.nothing_left;
        spared =
            All-append reaction.0 events
              (react-IsSparing pid (pid == s.current_process) sig process).events later.spared;
        alive = λ q old. later.alive q (IsProcess-update pid reaction.1 s q old);
      },
    )

-- When each signal of the list is one of 1 to 28, for a process that exists, `handle_signals`
-- handles them all: nothing is left, every process still exists, and process 1 is not made to exit.
pub handle_signals-Handled :
    (s : Signals)
    → IsSound s s.signal_list
    → (events : List Event) × (t : Signals) × (handle_signals s ≡ done (events, t))
      × (t.signal_list ≡ [])
      × All IsSpared events
      × ((pid : ℕ) → IsProcess s pid → IsProcess t pid)
unfolding handle_signals
handle_signals-Handled s h =
    let (events, t, e, r) = handle_all-Handled s.signal_list s refl h in
    (events, t, e, r.nothing_left, r.spared, r.alive)

IsSound-append :
    (pid sig : ℕ) (s : Signals) (list : List (ℕ × ℕ))
    → IsSound s list
    → (0 < sig) × (sig < 29) × IsProcess s pid
    → IsSound s (list ++ ((pid, sig) ∷ []))
IsSound-append pid sig s [] h new = (new, tt)
IsSound-append pid sig s (entry ∷ list) h new = (h.0, IsSound-append pid sig s list h.1 new)

-- To a process that exists any number may be sent: the signals of the list remain ones of 1 to 28,
-- for processes that exist.
pub send_signal-IsSound :
    (pid sig : ℕ) (s : Signals)
    → IsSound s s.signal_list
    → IsProcess s pid
    → (t : Signals) × (send_signal pid sig s ≡ done t)
      × IsSound t t.signal_list
      × (t.processes ≡ s.processes)
unfolding send_signal
send_signal-IsSound pid sig s h (process, e) = elim (Bool-cases (process.status == 10)) [
  | inl z ↦ rw (e, z) (s, refl, h, refl)
  | inr z ↦ elim (Bool-cases ((sig == 0) || not (ltb sig 29))) [
    | inl b ↦ rw (e, z, b) (s, refl, h, refl)
    | inr b ↦
        let pos : 0 < sig = ground (arith, b) in
        let lt : sig < 29 = ground (arith, b) in
        rw (e, z, b)
          (
            record s { signal_list = s.signal_list ++ ((pid, sig) ∷ []) },
            refl,
            IsSound-append pid sig s s.signal_list h (pos, lt, (process, e)),
            refl,
          )
  ]
]
