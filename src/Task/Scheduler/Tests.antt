-- ===== src/Task/Scheduler/Tests.antt =====
-- The scheduler on concrete tasks over a counter: the cases of the tests in src/task/mod.rs, and
-- the theorems at inputs that meet their hypotheses.
use agnost_os.Base.{
  ℕ, ◌+◌, ◌≤◌, ◌<◌, ◌≡◌, ◌≢◌, ◌⊎◌, refl, false, none, some, [], ◌∷◌, arith, ok, replicate,
}
use agnost_os.Task.Stack.{initialize_frame}
use agnost_os.Task.Types.{
  max_tasks, TaskId, TaskState, TaskAction, Task, Scheduler, next_generation, after_action,
}
use agnost_os.Task.Scheduler.{
  new, spawn, state, cancel, reap, wake_slot, wake_expired, find_ready_from, find_next_ready,
  prepare, finish_run, dispatch, run_next, run_ready_loop, run_ready, task_at, slot_ready,
}
use agnost_os.Task.Scheduler.Slots.{IsValid, IsValid-new}
use agnost_os.Task.Scheduler.Lifecycle.{spawn_lem}
use agnost_os.Task.Scheduler.Handles.{cancel_lem, spawn-reap}
use agnost_os.Task.Scheduler.Dispatch.{Idle, Ran, run_next_lem}
use agnost_os.Task.Scheduler.Fairness.{runs, Serves, served_in_a_round, run_ready_lem}

abbrev Entry : Type 0
Entry = ℕ → TaskAction × ℕ

abbrev yielding : Entry
yielding n = (TaskAction.yield, n + 1)

abbrev sleeping_task : Entry
sleeping_task n = (TaskAction.sleep_until 10, n + 1)

abbrev exiting : Entry
exiting n = (TaskAction.exit, n + 1)

abbrev empty : Scheduler ℕ
empty = new 0x10000

abbrev handle : ℕ → ℕ → TaskId
handle i g = record { index = i; generation = g }

abbrev one : Scheduler ℕ
one = (spawn empty yielding).1

-- Two yielding tasks.
abbrev two : Scheduler ℕ
two = (spawn one yielding).1

spawned_one : spawn empty yielding ≡ (ok (handle 0 1), one)
unfolding spawn new next_generation
spawned_one = refl

spawned_two : spawn one yielding ≡ (ok (handle 1 1), two)
unfolding spawn new next_generation
spawned_two = refl

one-IsValid : IsValid one
one-IsValid = (spawn_lem yielding (IsValid-new 0x10000) spawned_one).3

two-IsValid : IsValid two
two-IsValid = (spawn_lem yielding one-IsValid spawned_two).3

round_robin :
    runs 0 (0 ∷ 0 ∷ 0 ∷ []) two 0
    ≡ ok (some (handle 0 1)) ∷ ok (some (handle 1 1)) ∷ ok (some (handle 0 1)) ∷ []
unfolding runs run_next wake_expired wake_slot find_next_ready find_ready_from dispatch prepare
    finish_run spawn new after_action initialize_frame next_generation
round_robin = refl

-- A task that sleeps until tick 10 runs at tick 0, not at tick 9, and again at tick 10.
sleeps_until_deadline :
    runs 0 (0 ∷ 9 ∷ 10 ∷ []) (spawn empty sleeping_task).1 0
    ≡ ok (some (handle 0 1)) ∷ ok none ∷ ok (some (handle 0 1)) ∷ []
unfolding runs run_next wake_expired wake_slot find_next_ready find_ready_from dispatch prepare
    finish_run spawn new after_action initialize_frame next_generation
sleeps_until_deadline = refl

-- A budget of three lets a yielding task run three times, and a budget of zero not at all.
budget_is_kept : ((run_ready 0 one 0 3 0).0 ≡ ok 3) × ((run_ready 0 one 0 0 0).0 ≡ ok 0)
unfolding run_ready run_ready_loop run_next wake_expired wake_slot find_next_ready find_ready_from
    dispatch prepare finish_run spawn new after_action initialize_frame next_generation
budget_is_kept = (refl, refl)

spawn_lem_example :
    (task_at one 1 ≡ none)
    × (state two (handle 1 1) ≡ some TaskState.ready)
    × ((other : TaskId) → 1 ≢ other.index → state two other ≡ state one other)
    × IsValid two
spawn_lem_example = spawn_lem yielding one-IsValid spawned_two

abbrev cancelled_one : Scheduler ℕ
cancelled_one = (cancel one (handle 0 1)).1

cancelled_one-IsValid : IsValid cancelled_one
cancelled_one-IsValid = (cancel_lem one (handle 0 1) one-IsValid).2.valid

abbrev reaped_one : Scheduler ℕ
reaped_one = (reap cancelled_one (handle 0 1)).1

reaped : reap cancelled_one (handle 0 1) ≡ (ok tt, reaped_one)
unfolding spawn new next_generation cancel reap
reaped = refl

respawned : spawn reaped_one exiting ≡ (ok (handle 0 2), (spawn reaped_one exiting).1)
unfolding spawn new next_generation cancel reap
respawned = refl

spawn-reap_example :
    (state (spawn reaped_one exiting).1 (handle 0 1) ≡ none) × (handle 0 1 ≢ handle 0 2)
spawn-reap_example = spawn-reap exiting cancelled_one-IsValid reaped respawned

run_next_lem_example :
    let (r, s', w') = run_next 0 two 5 0 in
    (Idle two 5 0 r s' w' ⊎ ((i : ℕ) × (t : Task ℕ) × Ran two 5 0 r s' w' i t)) × IsValid s'
run_next_lem_example = run_next_lem 0 5 0 two-IsValid

run_ready_lem_example :
    let (r, s', w') = run_ready 0 two 5 8 0 in
    (count : ℕ) × (r ≡ ok count)
    × (count ≤ 8)
    × (count < 8 → (j : ℕ) → j < max_tasks → slot_ready (task_at s' j) ≡ false)
    × IsValid s'
run_ready_lem_example = run_ready_lem 0 two 5 8 0 two-IsValid

served_in_a_round_example : Serves (handle 1 1) (runs 0 (replicate 64 0) two 0)
unfolding spawn new next_generation
served_in_a_round_example =
    served_in_a_round 0 (replicate 64 0) two 0 1 two-IsValid (omega arith) refl refl
