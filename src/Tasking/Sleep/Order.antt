-- ===== src/Tasking/Sleep/Order.antt =====
-- Where `scheduler_wait_thread` puts a thread.
use vk.Prelude.{
  ℕ, ◌+◌, ◌-◌, ◌≤◌, ◌<◌, ◌≡◌, refl, ap, true, false, List, [], ◌∷◌, ◌++◌, ◌==◌, ltb, ◌||◌, arith,
  Bool-cases, inl, inr,
}
use vk.Tasking.Sleep.{
  Wait, Sleepers, place, link, add_wait, wait_time_part, scheduler_wait_thread, sleep_time,
}

-- The times of the entries, one after the other: when the last of them wakes.
unfoldable pub total : List Wait → ℕ
total [] = 0
total (e ∷ es) = e.time + total es

-- The list is cut at the place for `time`: what is before it is over by then, and what is behind
-- it is not, unless the time is used up exactly.
pub record Cut (time : ℕ) (list before behind : List Wait) : Type 0 where
  pub parts : before ++ behind ≡ list
  pub over : total before ≤ time

place-Cut : (time : ℕ) (list : List Wait) → Cut time list (place time list).0 (place time list).1
unfolding place total
place-Cut time [] = record { parts = refl; over = omega arith }
place-Cut time (e ∷ es) = elim (Bool-cases ((time == 0) || ltb time e.time)) [
  | inl stop ↦ rw stop (record { parts = refl; over = omega arith })
  | inr go ↦
      let le : e.time ≤ time = ground (arith, go) in
      let ih = place-Cut (time - e.time) es in
      rw go
        (record { parts = ap (λ (l : List Wait). e ∷ l) ih.parts; over = omega (arith, ih.over) })
]

-- A thread that is to sleep for some time, but less than the first that sleeps, becomes the only
-- one of the list: all others are lost, and no update of the list wakes them.
pub scheduler_wait_thread-drops :
    (thread : ℕ × ℕ) (wait_time : ℕ) (s : Sleepers) (e : Wait) (es : List Wait)
    → s.wait_list ≡ e ∷ es
    → 0 < wait_time
    → wait_time < e.time
    → (scheduler_wait_thread thread sleep_time 0 wait_time s).wait_list
      ≡ record { thread = thread; time = wait_time } ∷ []
unfolding scheduler_wait_thread wait_time_part add_wait place link
scheduler_wait_thread-drops thread wait_time s e es l pos lt =
    let p : ltb 0 wait_time ≡ true = ground arith in
    let b : (wait_time == 0) ≡ false = ground arith in
    let c : ltb wait_time e.time ≡ true = ground arith in rw (p, l, b, c) refl

-- A thread that is to sleep for some time, but no less than the first that sleeps, is put in
-- between the others, which all stay in their order. The list counts each time from the one before
-- it on; those in front of the new thread add up to no more than its time, but the thread has its
-- whole time once more behind them.
pub scheduler_wait_thread-late :
    (thread : ℕ × ℕ) (wait_time : ℕ) (s : Sleepers) (e : Wait) (es : List Wait)
    → s.wait_list ≡ e ∷ es
    → 0 < wait_time
    → e.time ≤ wait_time
    → let added : Wait = record { thread = thread; time = wait_time } in
      (before : List Wait) × (behind : List Wait) × (e ∷ before ++ behind ≡ s.wait_list)
      × (total (e ∷ before) ≤ wait_time)
      × ((scheduler_wait_thread thread sleep_time 0 wait_time s).wait_list
          ≡ e ∷ before ++ (added ∷ behind))
unfolding scheduler_wait_thread wait_time_part add_wait place link total
scheduler_wait_thread-late thread wait_time s e es l pos le =
    let p : ltb 0 wait_time ≡ true = ground arith in
    let b : (wait_time == 0) ≡ false = ground arith in
    let c : ltb wait_time e.time ≡ false = ground arith in
    let cut = place-Cut (wait_time - e.time) es in
    rw (p, l, b, c)
      (
        (place (wait_time - e.time) es).0,
        (place (wait_time - e.time) es).1,
        ap (λ (r : List Wait). e ∷ r) cut.parts,
        omega (arith, cut.over),
        refl,
      )
