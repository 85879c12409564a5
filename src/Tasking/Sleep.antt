-- ===== src/Tasking/Sleep.antt =====
-- The threads that sleep, of tasking/scheduler/scheduler.c. A thread is named by the pair of its
-- process and itself. The list of waits is the sequence of its entries. What
-- `scheduler_remove_thread` and `scheduler_add_thread` do is not modelled: the functions return the
-- threads that they wake. Nor is `scheduler_irq_wakeup`, which follows pointers into the list, or
-- the mutex.
pub mod Order
pub mod Ticks
mod Tests
use vk.Prelude.{
  ℕ, ◌+◌, ◌-◌, ◌≤◌, zero, suc, Bool, true, false, List, [], ◌∷◌, ◌++◌, if◌then◌else◌, ◌==◌, ltb,
  leb, ◌&&◌, ◌||◌,
}

-- An entry of the list of waits: the thread and the number that stands beside it.
pub record Wait : Type 0 where
  pub thread : ℕ × ℕ
  pub time : ℕ

-- A thread that waits for an interrupt, and whether it has an entry in the list of waits too.
pub record IrqWait : Type 0 where
  pub thread : ℕ × ℕ
  pub timed : Bool

-- THREAD_STATUS_ASLEEP_TIME, THREAD_STATUS_ASLEEP_IRQ, SLEEP_WAIT_IRQ and SLEEP_TIME
-- (tasking/task.h)
abbrev pub thread_status_asleep_time : ℕ
thread_status_asleep_time = 2

abbrev pub thread_status_asleep_irq : ℕ
thread_status_asleep_irq = 3

abbrev pub sleep_wait_irq : ℕ
sleep_wait_irq = 1

abbrev pub sleep_time : ℕ
sleep_time = 3

pub record Sleepers : Type 0 where
  pub wait_list : List Wait
  pub irq_list : ℕ → List IrqWait
  pub status : ℕ × ℕ → ℕ

abbrev pub same_thread : ℕ × ℕ → ℕ × ℕ → Bool
same_thread (p, t) (q, u) = (p == q) && (t == u)

-- The loop that looks for the place of a thread: the entries before and behind it.
pub place : ℕ → List Wait → List Wait × List Wait
place cumulated_time [] = ([], [])
place cumulated_time (e ∷ es) =
    let (before, behind) = place (cumulated_time - e.time) es in
    if (cumulated_time == 0) || ltb cumulated_time e.time
    then ([], e ∷ es)
    else (e ∷ before, behind)

-- With nothing before it, the new entry is the whole list.
pub link : List Wait → Wait → List Wait → List Wait
link [] entry behind = entry ∷ []
link (e ∷ es) entry behind = (e ∷ es) ++ (entry ∷ behind)

pub add_wait : ℕ × ℕ → ℕ → List Wait → List Wait
unfolding place link
add_wait thread wait_time list =
    let (before, behind) = place wait_time list in
    link before (record { thread = thread; time = wait_time }) behind

abbrev pub set_status : ℕ × ℕ → ℕ → (ℕ × ℕ → ℕ) → ℕ × ℕ → ℕ
set_status thread v status t = if same_thread thread t then v else status t

-- Whether the thread gets an entry in the list of waits.
abbrev pub timed : ℕ → ℕ → Bool
timed sleep_reason wait_time =
    ltb 0 wait_time && ((sleep_reason == sleep_wait_irq) || (sleep_reason == sleep_time))

pub wait_time_part : ℕ × ℕ → ℕ → ℕ → Sleepers → Sleepers
unfolding add_wait
wait_time_part thread sleep_reason wait_time s =
    if timed sleep_reason wait_time
    then record s {
      wait_list = add_wait thread wait_time s.wait_list;
      status = set_status thread thread_status_asleep_time s.status;
    }
    else s

pub scheduler_wait_thread : ℕ × ℕ → ℕ → ℕ → ℕ → Sleepers → Sleepers
unfolding wait_time_part
scheduler_wait_thread thread sleep_reason sleep_data wait_time s =
    let s' = wait_time_part thread sleep_reason wait_time s in
    if leb sleep_data 20 && (sleep_reason == sleep_wait_irq)
    then record s' {
      irq_list = λ irq.
          if irq == sleep_data
          then s'.irq_list irq
            ++ (record { thread = thread; timed = timed sleep_reason wait_time } ∷ [])
          else s'.irq_list irq;
      status = set_status thread thread_status_asleep_irq s'.status;
    }
    else s'

-- The threads that the loop of `scheduler_sleep_update` wakes behind the first one, and the entries
-- that it leaves.
pub wake_zeros : List Wait → List (ℕ × ℕ) × List Wait
wake_zeros [] = ([], [])
wake_zeros (e ∷ es) =
    let (woken, rest) = wake_zeros es in
    if e.time == 0 then (e.thread ∷ woken, rest) else ([], e ∷ es)

pub update_list : List Wait → List (ℕ × ℕ) × List Wait
unfolding wake_zeros
update_list [] = ([], [])
update_list (e ∷ es) =
    let (woken, rest) = wake_zeros es in
    if ltb 55 e.time then ([], record e { time = e.time - 55 } ∷ es) else (e.thread ∷ woken, rest)

pub scheduler_sleep_update : Sleepers → List (ℕ × ℕ) × Sleepers
unfolding update_list
scheduler_sleep_update s =
    let (woken, rest) = update_list s.wait_list in (woken, record s { wait_list = rest })
