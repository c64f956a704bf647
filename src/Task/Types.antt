-- ===== src/Task/Types.antt =====
-- src/task/mod.rs: task handles, states and actions, and the transitions of one task's state.
use agnost_os.Base.{ℕ, ◌+◌, ◌%◌, ◌^◌, max, Bool, true, false, Option, List, leb, if◌then◌else◌}
use agnost_os.Task.Stack.{TaskContext, TaskStack}

abbrev pub max_tasks : ℕ
max_tasks = 64

pub record TaskId : Type 0 where
  pub index : ℕ
  pub generation : ℕ

pub data TaskState : Type 0 where
  ready running : TaskState
  sleeping : ℕ → TaskState
  blocked finished cancelled : TaskState

pub data TaskAction : Type 0 where
  yield : TaskAction
  sleep_until : ℕ → TaskAction
  block exit : TaskAction

pub data SchedulerError : Type 0 where
  no_task_slots invalid_task task_not_finished : SchedulerError

pub record Task (W : Type 0) : Type 0 where
  pub entry : W → TaskAction × W
  pub state : TaskState

pub record SchedulerStats : Type 0 where
  pub task_count : ℕ
  pub ready : ℕ
  pub sleeping : ℕ
  pub blocked : ℕ
  pub running : ℕ
  pub finished : ℕ
  pub cancelled : ℕ

pub record Scheduler (W : Type 0) : Type 0 where
  pub tasks : List (Option (Task W))
  pub stacks : List TaskStack
  pub contexts : List TaskContext
  pub generations : List ℕ
  pub current : Option TaskId
  pub next : ℕ

abbrev pub is_ready : TaskState → Bool
is_ready TaskState.ready = true
is_ready _ = false

abbrev pub is_blocked : TaskState → Bool
is_blocked TaskState.blocked = true
is_blocked _ = false

-- `matches!(state, TaskState::Finished | TaskState::Cancelled)`.
abbrev pub is_terminated : TaskState → Bool
is_terminated TaskState.finished = true
is_terminated TaskState.cancelled = true
is_terminated _ = false

-- `wrapping_add(1).max(1)` on `u32`.
unfoldable pub next_generation : ℕ → ℕ
next_generation g = max ((g + 1) % 2 ^ 32) 1

unfoldable pub wake_state : ℕ → TaskState → TaskState
wake_state now (TaskState.sleeping until) =
    if leb until now then TaskState.ready else TaskState.sleeping until
wake_state now st = st

-- The state that a running task is left in by what its entry returned.
unfoldable pub after_action : ℕ → TaskAction → TaskState
after_action now yield = TaskState.ready
after_action now (sleep_until until) =
    if leb until now then TaskState.ready else TaskState.sleeping until
after_action now block = TaskState.blocked
after_action now exit = TaskState.finished

unfoldable pub count_state : SchedulerStats → TaskState → SchedulerStats
count_state c TaskState.ready = record c { ready = c.ready + 1 }
count_state c (TaskState.sleeping _) = record c { sleeping = c.sleeping + 1 }
count_state c TaskState.blocked = record c { blocked = c.blocked + 1 }
count_state c TaskState.running = record c { running = c.running + 1 }
count_state c TaskState.finished = record c { finished = c.finished + 1 }
count_state c TaskState.cancelled = record c { cancelled = c.cancelled + 1 }

abbrev pub no_stats : SchedulerStats
no_stats = record {
  task_count = 0;
  ready = 0;
  sleeping = 0;
  blocked = 0;
  running = 0;
  finished = 0;
  cancelled = 0;
}
