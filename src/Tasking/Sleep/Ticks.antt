-- ===== src/Tasking/Sleep/Ticks.antt =====
-- When the first thread of the list wakes.
use vk.Prelude.{
  ℕ, ◌+◌, ◌-◌, ◌*◌, ◌≤◌, ◌<◌, ◌≡◌, ◌≢◌, refl, ap, zero, suc, true, false, List, [], ◌∷◌, ◌++◌, ◌==◌,
  ltb, map, All, append-nil, arith, Bool-cases, inl, inr, ==→eq, ==→ne,
}
use vk.Tasking.Sleep.{Wait, Sleepers, wake_zeros, update_list, scheduler_sleep_update}

-- The first entry of the list is not due at once.
abbrev pub IsPending : List Wait → Type 0
IsPending [] = Unit
IsPending (e ∷ es) = e.time ≢ 0

-- The woken threads are the first of the list, in order, and each of them has the time 0.
pub record Woke (list : List Wait) (woken : List (ℕ × ℕ)) (rest : List Wait) : Type 0 where
  pub due : List Wait
  pub threads : map (λ (e : Wait). e.thread) due ≡ woken
  pub none_left : All (λ (e : Wait). e.time ≡ 0) due
  pub parts : due ++ rest ≡ list
  pub pending : IsPending rest

wake_zeros-Woke : (list : List Wait) → Woke list (wake_zeros list).0 (wake_zeros list).1
unfolding wake_zeros
wake_zeros-Woke [] = record { due = []; threads = refl; none_left = tt; parts = refl; pending = tt }
wake_zeros-Woke (e ∷ es) = elim (Bool-cases (e.time == 0)) [
  | inl z ↦
      let ih = wake_zeros-Woke es in
      rw z (record {
        due = e ∷ ih.due;
        threads = ap (λ (l : List (ℕ × ℕ)). e.thread ∷ l) ih.threads;
        none_left = (==→eq e.time 0 z, ih.none_left);
        parts = ap (λ (l : List Wait). e ∷ l) ih.parts;
        pending = ih.pending;
      })
  | inr ne ↦ rw ne (record {
    due = [];
    threads = refl;
    none_left = tt;
    parts = refl;
    pending = ==→ne e.time 0 ne;
  })
]

-- The threads woken by `n` updates.
unfoldable pub ticks : ℕ → Sleepers → List (ℕ × ℕ) × Sleepers
unfolding scheduler_sleep_update
ticks zero s = ([], s)
ticks (suc n) s =
    let (woken, s') = scheduler_sleep_update s in
    let (later, s'') = ticks n s' in (woken ++ later, s'')

wakes_nobody :
    (s : Sleepers) (e : Wait) (es : List Wait)
    → s.wait_list ≡ e ∷ es
    → 55 < e.time
    → scheduler_sleep_update s ≡ ([], record s { wait_list = record e { time = e.time - 55 } ∷ es })
unfolding scheduler_sleep_update update_list
wakes_nobody s e es l lt = let b : ltb 55 e.time ≡ true = ground arith in rw (l, b) refl

ticks-later :
    (n : ℕ) (s : Sleepers) (e : Wait) (es : List Wait)
    → s.wait_list ≡ e ∷ es
    → 55 < e.time
    → ticks (suc n) s ≡ ticks n (record s { wait_list = record e { time = e.time - 55 } ∷ es })
unfolding ticks
ticks-later n s e es l lt =
    ap (λ (p : List (ℕ × ℕ) × Sleepers). (p.0 ++ (ticks n p.1).0, (ticks n p.1).1))
      (wakes_nobody s e es l lt)

-- What `scheduler_sleep_update-wakes` states.
abbrev Wakes : ℕ → Sleepers → Wait → List Wait → Type 0
Wakes n s e es =
    ((ticks n s).0 ≡ [])
    × (woken : List (ℕ × ℕ)) × ((ticks (n + 1) s).0 ≡ e.thread ∷ woken)
    × Woke es woken (ticks (n + 1) s).1.wait_list

Wakes-later :
    (n : ℕ) (s : Sleepers) (e : Wait) (es : List Wait)
    → s.wait_list ≡ e ∷ es
    → 55 < e.time
    → Wakes n
        (record s { wait_list = record e { time = e.time - 55 } ∷ es })
        (record e { time = e.time - 55 })
        es
    → Wakes (suc n) s e es
Wakes-later n s e es l lt w =
    let one : suc n + 1 ≡ suc (n + 1) = omega arith in
    rw (one, ticks-later n s e es l lt, ticks-later (n + 1) s e es l lt) w

-- The first thread of the list, with a time above `55 * n` and not above `55 * (n + 1)`, sleeps
-- through `n` updates, as all others do, and wakes at the next, together with those behind it that
-- stand there with the time 0; the others stay in the list, in order.
pub scheduler_sleep_update-wakes :
    (n : ℕ) (s : Sleepers) (e : Wait) (es : List Wait)
    → s.wait_list ≡ e ∷ es
    → 55 * n < e.time
    → e.time ≤ 55 * (n + 1)
    → ((ticks n s).0 ≡ [])
      × (woken : List (ℕ × ℕ)) × ((ticks (n + 1) s).0 ≡ e.thread ∷ woken)
      × Woke es woken (ticks (n + 1) s).1.wait_list
unfolding ticks scheduler_sleep_update update_list
scheduler_sleep_update-wakes zero s e es l lo hi =
    let b : ltb 55 e.time ≡ false = ground arith in
    rw (l, b) (refl, (wake_zeros es).0, append-nil _, wake_zeros-Woke es)
scheduler_sleep_update-wakes (suc n) s e es l lo hi =
    let e' : Wait = record e { time = e.time - 55 } in
    Wakes-later n s e es l (omega arith) (
      scheduler_sleep_update-wakes n (record s { wait_list = e' ∷ es }) e' es refl (omega arith)
        (omega arith))
