-- ===== src/Task/Scheduler/Dispatch.antt =====
-- `run_next`: which task runs, and what it is left as.
use agnost_os.Base.{
  ℕ, ◌+◌, ◌%◌, ◌≤◌, ◌<◌, ◌≡◌, ◌≢◌, ◌⊎◌, refl, ap, sym, ◌∙◌, true, false, Option, none, some, arith,
  length, set, length-set, inl, inr, Result, ok, get_or-set_self, get_or-set_ne, set-set,
  get_or-set_pred, Option-cases,
}
use mathlib.Core.Path.{subst}
use agnost_os.Task.Types.{
  max_tasks, TaskId, TaskState, TaskAction, Task, Scheduler, SchedulerError, after_action,
}
use agnost_os.Task.Scheduler.{
  task_at, generation_at, wake_slot, wake_expired, slot_ready, find_next_ready, prepare, finish_run,
  dispatch, run_next, set_state,
}
use agnost_os.Task.Scheduler.Slots.{IsValid, NotRunning, wake_expired-IsValid, task_at-wake_expired}
use agnost_os.Task.Scheduler.Woken.{
  not_ready, IsLeft, IsWoken, after_action-IsLeft, wake_slot-IsWoken,
}
use agnost_os.Task.Scheduler.Search.{distance, find_next_ready-some, find_next_ready-none}

after_action-running : (now : ℕ) (action : TaskAction) → after_action now action ≢ TaskState.running
unfolding after_action
after_action-running now action = ground arith

module _ {W : Type 0} where
  -- The scheduler after the task `t` of the ready slot `i` has run and returned `action`.
  abbrev after_run : ℕ → Scheduler W → ℕ → Task W → ℕ → TaskAction → Scheduler W
  after_run trampoline s i t now action =
      let p = prepare trampoline s i in
      record (set_state (set_state p i t TaskState.running) i t (after_action now action)) {
        current = none;
        next = (i + 1) % max_tasks;
      }

  ready_task :
      (o : Option (Task W))
      → slot_ready o ≡ true
      → (t : Task W) × (o ≡ some t) × (t.state ≡ TaskState.ready)
  ready_task none h = cc
  ready_task (some t) h = (t, refl, ground arith)

  state-slot_ready : (t : Task W) → t.state ≡ TaskState.ready → slot_ready (some t) ≡ true
  state-slot_ready t e = ground arith

  finish_run_lem :
      (s : Scheduler W) (i now : ℕ) (action : TaskAction) (t : Task W)
      → task_at s i ≡ some t
      → finish_run s i now action ≡ (
        ok (some (record { index = i; generation = generation_at s i })),
        record (set_state s i t (after_action now action)) {
          current = none;
          next = (i + 1) % max_tasks;
        },
      )
  unfolding finish_run
  finish_run_lem s i now action t e = rw (e, finish_run)

  dispatch_lem :
      (trampoline : ℕ) (s : Scheduler W) (i now : ℕ) (w : W) (t : Task W)
      → i < length s.tasks
      → task_at s i ≡ some t
      → dispatch trampoline s i now w ≡ (
        ok (some (record { index = i; generation = generation_at s i })),
        after_run trampoline s i t now (t.entry w).0,
        (t.entry w).1,
      )
  unfolding dispatch prepare
  dispatch_lem trampoline s i now w t lt e =
      rw (e, dispatch)
        (ap {B = Result SchedulerError (Option TaskId) × Scheduler W × W}
          (λ r. (r.0, r.1, (t.entry w).1))
          (finish_run_lem (set_state (prepare trampoline s i) i t TaskState.running) i now
            (t.entry w).0 (record t { state = TaskState.running })
            (get_or-set_self s.tasks i _ none lt)))

  after_run-IsValid :
      {s : Scheduler W} (trampoline i : ℕ) (t : Task W) (now : ℕ) (action : TaskAction)
      → IsValid s
      → IsValid (after_run trampoline s i t now action)
  unfolding prepare
  after_run-IsValid {s} trampoline i t now action v = record {
    tasks_sized = length-set (set s.tasks i _) i _ ∙ (length-set s.tasks i _ ∙ v.tasks_sized);
    stacks_sized = length-set s.stacks i _ ∙ v.stacks_sized;
    contexts_sized = length-set s.contexts i _ ∙ v.contexts_sized;
    generations_sized = v.generations_sized;
    generations_fit = v.generations_fit;
    none_running = rw (set-set s.tasks i _ (some (record t { state = after_action now action }))) (
        get_or-set_pred NotRunning s.tasks i _ none v.none_running
          (after_action-running now action));
    no_current = refl;
    next_in = omega arith;
  }

  -- The two outcomes of `run_next`.
  run_next_cases :
      (trampoline : ℕ) {s : Scheduler W} (now : ℕ) (w : W)
      → IsValid s
      → ((find_next_ready (wake_expired s now) ≡ none)
          × (run_next trampoline s now w ≡ (ok none, wake_expired s now, w)))
        ⊎ ((i : ℕ) × (t : Task W) × (find_next_ready (wake_expired s now) ≡ some i)
            × (i < max_tasks)
            × (task_at (wake_expired s now) i ≡ some t)
            × (t.state ≡ TaskState.ready)
            × (run_next trampoline s now w ≡ (
              ok (some (record { index = i; generation = generation_at (wake_expired s now) i })),
              after_run trampoline (wake_expired s now) i t now (t.entry w).0,
              (t.entry w).1,
            )))
  unfolding run_next
  run_next_cases trampoline {s} now w v =
      elim (Option-cases (find_next_ready (wake_expired s now))) [
        | inl e ↦ inl (e, rw (e, run_next))
        | inr (i, e) ↦
            let woken = wake_expired-IsValid now v in
            let (lt, here, _) = find_next_ready-some (wake_expired s now) woken.next_in e in
            let (t, slot, is) = ready_task (task_at (wake_expired s now) i) here in
            inr (
              i,
              t,
              e,
              lt,
              slot,
              is,
              rw (e, run_next)
                  (dispatch_lem trampoline (wake_expired s now) i now w t
                    (omega (arith, woken.tasks_sized)) slot),
            )
      ]

  -- Nothing was ready: only the elapsed sleepers have been woken.
  pub record Idle (s : Scheduler W) (now : ℕ) (w : W) (r : Result SchedulerError (Option TaskId))
      (s' : Scheduler W) (w' : W) : Type 0 where
    pub woken : (j : ℕ) → IsWoken now (task_at s j) (task_at s' j)
    pub none_ready : (j : ℕ) → j < max_tasks → slot_ready (wake_slot now (task_at s j)) ≡ false
    pub idle :
        (j : ℕ) (t : Task W) → j < max_tasks → task_at s' j ≡ some t → t.state ≢ TaskState.ready
    pub returned : r ≡ ok none
    pub slots : (j : ℕ) → task_at s' j ≡ wake_slot now (task_at s j)
    pub world : w' ≡ w

  -- The task `t` of slot `i` ran once: it was ready after the elapsed sleepers were woken, and the
  -- first such slot from `next` on; its entry was called on the world, and what it returned decides
  -- the task's new state. Every other slot is as the waking left it.
  pub record Ran (s : Scheduler W) (now : ℕ) (w : W) (r : Result SchedulerError (Option TaskId))
      (s' : Scheduler W) (w' : W) (i : ℕ) (t : Task W) : Type 0 where
    pub in_range : i < max_tasks
    pub woken : (j : ℕ) → IsWoken now (task_at s j) (wake_slot now (task_at s j))
    pub slot : wake_slot now (task_at s i) ≡ some t
    pub was_ready : t.state ≡ TaskState.ready
    pub first :
        (j : ℕ)
        → j < max_tasks
        → slot_ready (wake_slot now (task_at s j)) ≡ true
        → distance s.next i ≤ distance s.next j
    pub earliest :
        (j : ℕ) (u : Task W)
        → j < max_tasks
        → wake_slot now (task_at s j) ≡ some u
        → u.state ≡ TaskState.ready
        → distance s.next i ≤ distance s.next j
    pub returned : r ≡ ok (some (record { index = i; generation = generation_at s i }))
    pub after : task_at s' i ≡ some (record t { state = after_action now (t.entry w).0 })
    pub left : IsLeft now (t.entry w).0 (after_action now (t.entry w).0)
    pub others : (j : ℕ) → i ≢ j → task_at s' j ≡ wake_slot now (task_at s j)
    pub advanced : s'.next ≡ (i + 1) % max_tasks
    pub generations_kept : s'.generations ≡ s.generations
    pub world : w' ≡ (t.entry w).1

  abbrev Outcome :
      Scheduler W → ℕ → W → Result SchedulerError (Option TaskId) × Scheduler W × W → Type 0
  Outcome s now w (r, s', w') =
      (Idle s now w r s' w' ⊎ ((i : ℕ) × (t : Task W) × Ran s now w r s' w' i t)) × IsValid s'

  ran :
      (trampoline : ℕ) {s : Scheduler W} (now : ℕ) (w : W) (i : ℕ) (t : Task W)
      → IsValid s
      → find_next_ready (wake_expired s now) ≡ some i
      → task_at (wake_expired s now) i ≡ some t
      → t.state ≡ TaskState.ready
      → Ran s now w
          (ok (some (record { index = i; generation = generation_at s i })))
          (after_run trampoline (wake_expired s now) i t now (t.entry w).0)
          (t.entry w).1
          i
          t
  unfolding prepare wake_expired
  ran trampoline {s} now w i t v e slot is =
      let u = wake_expired-IsValid now v in
      let (lt, _, first) = find_next_ready-some (wake_expired s now) u.next_in e in
      record {
        in_range = lt;
        woken = λ j. wake_slot-IsWoken now (task_at s j);
        left = after_action-IsLeft now (t.entry w).0;
        slot = sym (task_at-wake_expired s now i) ∙ slot;
        was_ready = is;
        first = λ j j_lt h. first j j_lt (ap slot_ready (task_at-wake_expired s now j) ∙ h);
        earliest = λ j u j_lt there ready_then.
            first j j_lt (
              ap slot_ready (task_at-wake_expired s now j ∙ there) ∙ state-slot_ready u ready_then);
        returned = refl;
        after =
            get_or-set_self (set (wake_expired s now).tasks i _) i _ none
              (omega (arith, length-set (wake_expired s now).tasks i _, u.tasks_sized));
        others = λ j ne.
            get_or-set_ne (set (wake_expired s now).tasks i _) i j _ none ne
            ∙ (get_or-set_ne (wake_expired s now).tasks i j _ none ne
                ∙ task_at-wake_expired s now j);
        advanced = refl;
        generations_kept = refl;
        world = refl;
      }

  -- One call of `run_next` never fails. It makes the sleepers ready whose time has come, and then runs
  -- the first ready task in round-robin order once, or none if none is ready. A task that yields is
  -- left ready, one that asks to sleep sleeps until then or is ready if that time has come, one that
  -- blocks is blocked and one that exits finished. Every other task is as the waking left it, and the
  -- scheduler is valid again, with no task running.
  pub run_next_lem :
      (trampoline : ℕ) {s : Scheduler W} (now : ℕ) (w : W)
      → IsValid s
      → let (r, s', w') = run_next trampoline s now w in
        (Idle s now w r s' w' ⊎ ((i : ℕ) × (t : Task W) × Ran s now w r s' w' i t)) × IsValid s'
  unfolding wake_expired
  run_next_lem trampoline {s} now w v = elim (run_next_cases trampoline now w v) [
    | inl (e, run) ↦ subst (Outcome s now w) (sym run) (
      inl (record {
        woken = λ j.
            subst (IsWoken now (task_at s j)) (sym (task_at-wake_expired s now j))
              (wake_slot-IsWoken now (task_at s j));
        none_ready = λ j lt.
            ap slot_ready (sym (task_at-wake_expired s now j))
            ∙ (find_next_ready-none (wake_expired s now) (wake_expired-IsValid now v).next_in).0 e j
                lt;
        idle = λ j t lt. not_ready _ t (
            (find_next_ready-none (wake_expired s now) (wake_expired-IsValid now v).next_in).0 e j
              lt);
        returned = refl;
        slots = task_at-wake_expired s now;
        world = refl;
      }),
      wake_expired-IsValid now v,
    )
    | inr (i, t, e, lt, slot, is, run) ↦ subst (Outcome s now w) (sym run) (
      inr (i, t, ran trampoline now w i t v e slot is),
      after_run-IsValid trampoline i t now (t.entry w).0 (wake_expired-IsValid now v),
    )
  ]
