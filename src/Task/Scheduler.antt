-- ===== src/Task/Scheduler.antt =====
-- src/task/mod.rs: the scheduler's state and operations.
-- A task's entry is a function over a world `W`, all that the entry can read and write; the
-- scheduler is no part of it, because its mutex is held while the entry runs.
pub mod Slots
pub mod Lifecycle
pub mod Handles
pub mod Search
pub mod Woken
pub mod Dispatch
pub mod Fairness
pub mod Stats
pub mod Tests
use agnost_os.Base.{
  ℕ, zero, suc, ◌+◌, ◌*◌, ◌%◌, ◌^◌, ◌≤◌, ◌<◌, max, ◌≡◌, Bool, true, false, not, ◌&&◌, Option, none,
  some, List, [], ◌∷◌, map, ltb, leb, ◌==◌, if◌then◌else◌, Result, ok, err, ◌>>=◌, ok_or, to_option,
  length, get_or, get_elem?, set, replicate,
}
use agnost_os.Task.Stack.{
  TaskContext, TaskStack, new_context, new_stack, initialize_frame, task_stack_size,
}
use agnost_os.Task.Types.{
  max_tasks, TaskId, TaskState, TaskAction, SchedulerError, no_task_slots, invalid_task,
  task_not_finished, Task, SchedulerStats, Scheduler, is_ready, is_blocked, is_terminated,
  next_generation, wake_state, after_action, count_state, no_stats,
}

-- `[TaskStack::new(); n]` at an address.
pub stacks_at : ℕ → ℕ → List TaskStack
stacks_at zero address = []
stacks_at (suc n) address = new_stack address ∷ stacks_at n (address + task_stack_size)

module _ {W : Type 0} where
  -- `Scheduler::new`, with its stacks placed at an address.
  unfoldable pub new : ℕ → Scheduler W
  unfolding stacks_at
  new address = record {
    tasks = replicate max_tasks none;
    stacks = stacks_at max_tasks address;
    contexts = replicate max_tasks new_context;
    generations = replicate max_tasks 0;
    current = none;
    next = 0;
  }

  abbrev pub task_at : Scheduler W → ℕ → Option (Task W)
  task_at s i = get_or s.tasks i none

  abbrev pub generation_at : Scheduler W → ℕ → ℕ
  generation_at s i = get_or s.generations i 0

  -- `.iter_mut().enumerate().find(|(_, slot)| slot.is_none())`, counted from `i`.
  unfoldable pub find_free : List (Option (Task W)) → ℕ → Option ℕ
  find_free [] i = none
  find_free (none ∷ slots) i = some i
  find_free (some t ∷ slots) i = find_free slots (i + 1)

  -- The slot is free at `index`.
  unfoldable pub occupy : Scheduler W → (W → TaskAction × W) → ℕ → TaskId × Scheduler W
  occupy s entry index =
      let generation = next_generation (generation_at s index) in
      (
        record { index = index; generation = generation },
        record s {
          tasks = set s.tasks index (some (record { entry = entry; state = TaskState.ready }));
          generations = set s.generations index generation;
        },
      )

  unfoldable pub spawn :
      Scheduler W → (W → TaskAction × W) → Result SchedulerError TaskId × Scheduler W
  unfolding find_free occupy
  spawn s entry = elim (find_free s.tasks 0) [
    | none ↦ (err no_task_slots, s)
    | some index ↦ let (id, s') = occupy s entry index in (ok id, s')
  ]

  unfoldable pub valid_task : Scheduler W → TaskId → Result SchedulerError (Option (Task W))
  valid_task s id =
      if leb max_tasks id.index
      then err invalid_task
      else if generation_at s id.index == id.generation
      then ok (task_at s id.index)
      else err invalid_task

  -- `valid_task(task)?.ok_or(InvalidTask)`, which `wake`, `cancel` and `reap` begin with.
  abbrev pub live_task : Scheduler W → TaskId → Result SchedulerError (Task W)
  live_task s id = do t ← valid_task s id; ok_or t invalid_task

  unfoldable pub state : Scheduler W → TaskId → Option TaskState
  unfolding valid_task
  state s id = elim (valid_task s id) [ err e ↦ none | ok none ↦ none | ok (some t) ↦ some t.state ]

  abbrev pub set_state : Scheduler W → ℕ → Task W → TaskState → Scheduler W
  set_state s index t st = record s { tasks = set s.tasks index (some (record t { state = st })) }

  unfoldable pub wake : Scheduler W → TaskId → Result SchedulerError (Unit {0}) × Scheduler W
  unfolding valid_task
  wake s id = elim (live_task s id) [
    | err e ↦ (err e, s)
    | ok t ↦
        if is_blocked t.state then (ok tt, set_state s id.index t TaskState.ready) else (ok tt, s)
  ]

  unfoldable pub cancel : Scheduler W → TaskId → Result SchedulerError (Unit {0}) × Scheduler W
  unfolding valid_task
  cancel s id = elim (live_task s id) [
    | err e ↦ (err e, s)
    | ok t ↦
        if is_terminated t.state
        then (ok tt, s)
        else (ok tt, set_state s id.index t TaskState.cancelled)
  ]

  unfoldable pub reap : Scheduler W → TaskId → Result SchedulerError (Unit {0}) × Scheduler W
  unfolding valid_task
  reap s id = elim (live_task s id) [
    | err e ↦ (err e, s)
    | ok t ↦
        if is_terminated t.state
        then (
          ok tt,
          record s {
            tasks = set s.tasks id.index none;
            contexts = set s.contexts id.index new_context;
          },
        )
        else (err task_not_finished, s)
  ]

  unfoldable pub context : Scheduler W → TaskId → Option TaskContext
  unfolding valid_task
  context s id = elim (live_task s id) [ err e ↦ none | ok t ↦ get_elem? s.contexts id.index ]

  unfoldable pub stack : Scheduler W → TaskId → Option TaskStack
  unfolding valid_task
  stack s id = elim (live_task s id) [ err e ↦ none | ok t ↦ get_elem? s.stacks id.index ]

  unfoldable pub wake_slot : ℕ → Option (Task W) → Option (Task W)
  unfolding wake_state
  wake_slot now none = none
  wake_slot now (some t) = some (record t { state = wake_state now t.state })

  unfoldable pub wake_expired : Scheduler W → ℕ → Scheduler W
  unfolding wake_slot
  wake_expired s now = record s { tasks = map (wake_slot now) s.tasks }

  abbrev pub slot_ready : Option (Task W) → Bool
  slot_ready none = false
  slot_ready (some t) = is_ready t.state

  -- The search over the offsets from `offset` on, `n` of them left.
  unfoldable pub find_ready_from : Scheduler W → ℕ → ℕ → Option ℕ
  find_ready_from s zero offset = none
  find_ready_from s (suc n) offset =
      let rest = find_ready_from s n (offset + 1) in
      let index = (s.next + offset) % max_tasks in
      if slot_ready (task_at s index) then some index else rest

  unfoldable pub find_next_ready : Scheduler W → Option ℕ
  find_next_ready s = find_ready_from s max_tasks 0

  -- The context and the stack are made ready, and the task becomes the current one.
  unfoldable pub prepare : ℕ → Scheduler W → ℕ → Scheduler W
  prepare trampoline s index =
      let c = get_or s.contexts index new_context in
      let (stack_pointer, stack') =
        initialize_frame trampoline (get_or s.stacks index (new_stack 0)) c in
      record s {
        stacks = set s.stacks index stack';
        contexts = set s.contexts index (record c { stack_pointer = stack_pointer });
        current = some (record { index = index; generation = generation_at s index });
      }

  -- After the entry has returned.
  unfoldable pub finish_run :
      Scheduler W → ℕ → ℕ → TaskAction → Result SchedulerError (Option TaskId) × Scheduler W
  finish_run s index now action = elim (task_at s index) [
    | none ↦ (err invalid_task, s)
    | some t ↦ (
      ok (some (record { index = index; generation = generation_at s index })),
      record (set_state s index t (after_action now action)) {
        current = none;
        next = (index + 1) % max_tasks;
      },
    )
  ]

  unfoldable pub dispatch :
      ℕ → Scheduler W → ℕ → ℕ → W → Result SchedulerError (Option TaskId) × Scheduler W × W
  dispatch trampoline s index now w =
      let p = prepare trampoline s index in
      elim (task_at p index) [
        | none ↦ (err invalid_task, p, w)
        | some t ↦
            let (action, w') = t.entry w in
            let (r, s') = finish_run (set_state p index t TaskState.running) index now action in
            (r, s', w')
      ]

  unfoldable pub run_next :
      ℕ → Scheduler W → ℕ → W → Result SchedulerError (Option TaskId) × Scheduler W × W
  run_next trampoline s now w =
      let s' = wake_expired s now in
      elim (find_next_ready s') [
        | none ↦ (ok none, s', w)
        | some index ↦ dispatch trampoline s' index now w
      ]

  -- The loop with `left = budget - dispatched` rounds left.
  unfoldable pub run_ready_loop :
      ℕ → ℕ → ℕ → Scheduler W → ℕ → W → Result SchedulerError ℕ × Scheduler W × W
  run_ready_loop trampoline zero dispatched s now w = (ok dispatched, s, w)
  run_ready_loop trampoline (suc left) dispatched s now w =
      let (r, s', w') = run_next trampoline s now w in
      elim r [
        | err e ↦ (err e, s', w')
        | ok none ↦ (ok dispatched, s', w')
        | ok (some id) ↦ run_ready_loop trampoline left (dispatched + 1) s' now w'
      ]

  unfoldable pub run_ready : ℕ → Scheduler W → ℕ → ℕ → W → Result SchedulerError ℕ × Scheduler W × W
  run_ready trampoline s now budget w = run_ready_loop trampoline budget 0 s now w

  pub count_tasks : SchedulerStats → List (Option (Task W)) → SchedulerStats
  unfolding count_state
  count_tasks c [] = c
  count_tasks c (none ∷ slots) = count_tasks c slots
  count_tasks c (some t ∷ slots) =
      count_tasks (count_state (record c { task_count = c.task_count + 1 }) t.state) slots

  unfoldable pub stats : Scheduler W → SchedulerStats
  unfolding count_tasks
  stats s = count_tasks no_stats s.tasks
