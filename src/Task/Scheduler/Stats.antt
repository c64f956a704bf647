-- ===== src/Task/Scheduler/Stats.antt =====
-- `stats`: the occupancy counters against a count of the slots.
use agnost_os.Base.{
  ℕ, suc, ◌+◌, ◌≡◌, refl, Bool, true, false, Option, none, some, List, [], ◌∷◌, arith, get_or,
  if◌then◌else◌,
}
use agnost_os.Task.Types.{
  TaskState, Task, SchedulerStats, Scheduler, is_ready, is_blocked, count_state, no_stats,
}
use agnost_os.Task.Scheduler.{count_tasks, stats}
use agnost_os.Task.Scheduler.Slots.{IsValid, NotRunning}

abbrev pub is_sleeping : TaskState → Bool
is_sleeping (TaskState.sleeping _) = true
is_sleeping _ = false

abbrev pub is_running : TaskState → Bool
is_running TaskState.running = true
is_running _ = false

abbrev pub is_finished : TaskState → Bool
is_finished TaskState.finished = true
is_finished _ = false

abbrev pub is_cancelled : TaskState → Bool
is_cancelled TaskState.cancelled = true
is_cancelled _ = false

module _ {W : Type 0} where
  -- The number of tasks whose state passes a test.
  unfoldable pub count : (TaskState → Bool) → List (Option (Task W)) → ℕ
  count p [] = 0
  count p (none ∷ slots) = count p slots
  count p (some t ∷ slots) = (if p t.state then 1 else 0) + count p slots

  record Counts (c d : SchedulerStats) (slots : List (Option (Task W))) : Type 0 where
    ready : d.ready ≡ c.ready + count is_ready slots
    sleeping : d.sleeping ≡ c.sleeping + count is_sleeping slots
    blocked : d.blocked ≡ c.blocked + count is_blocked slots
    running : d.running ≡ c.running + count is_running slots
    finished : d.finished ≡ c.finished + count is_finished slots
    cancelled : d.cancelled ≡ c.cancelled + count is_cancelled slots
    total :
        d.task_count + c.ready + c.sleeping + c.blocked + c.running + c.finished + c.cancelled
        ≡ c.task_count + d.ready + d.sleeping + d.blocked + d.running + d.finished + d.cancelled

  count_tasks-Counts :
      (c : SchedulerStats) (slots : List (Option (Task W))) → Counts c (count_tasks c slots) slots
  unfolding count_tasks count
  count_tasks-Counts c [] = omega arith
  count_tasks-Counts c (none ∷ slots) = omega (arith, count_tasks-Counts c slots)
  count_tasks-Counts c (some t ∷ slots) =
      step t.state (
        count_tasks-Counts (count_state (record c { task_count = c.task_count + 1 }) t.state) slots)
    where
      step :
          (st : TaskState) {d : SchedulerStats}
          → Counts (count_state (record c { task_count = c.task_count + 1 }) st) d slots
          → Counts c d (some (record t { state = st }) ∷ slots)
      step st h = ground arith

  count_none_running :
      (slots : List (Option (Task W)))
      → ((i : ℕ) → NotRunning (get_or slots i none))
      → count is_running slots ≡ 0
  unfolding count
  count_none_running [] h = refl
  count_none_running (none ∷ slots) h = count_none_running slots (λ i. h (suc i))
  count_none_running (some t ∷ slots) h =
      ground (arith, h 0, count_none_running slots (λ i. h (suc i)))

  -- Each counter of `stats` is the number of tasks in that state, they add up to `task_count`, and
  -- between calls no task counts as running.
  pub stats_lem :
      (s : Scheduler W)
      → IsValid s
      → let c = stats s in
        (c.ready ≡ count is_ready s.tasks)
        × (c.sleeping ≡ count is_sleeping s.tasks)
        × (c.blocked ≡ count is_blocked s.tasks)
        × (c.finished ≡ count is_finished s.tasks)
        × (c.cancelled ≡ count is_cancelled s.tasks)
        × (c.running ≡ 0)
        × (c.task_count ≡ c.ready + c.sleeping + c.blocked + c.finished + c.cancelled)
  unfolding stats
  stats_lem s v =
      omega (arith, count_tasks-Counts no_stats s.tasks, count_none_running s.tasks v.none_running)
