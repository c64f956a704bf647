-- ===== src/Task/Scheduler/Handles.antt =====
-- What `wake`, `cancel` and `reap` do with a handle: live, stale or out of range.
use agnost_os.Base.{
  ℕ, ◌<◌, ◌≡◌, ◌≢◌, refl, ap, sym, ◌∙◌, true, none, some, arith, set, if◌then◌else◌, length-set,
  inl, inr, Result, ok, err, get_or-set_self, get_or-set_ne, get_or-set_pred, Bool-cases, ==-self,
}
use mathlib.Core.Path.{subst}
use agnost_os.Task.Stack.{new_context}
use agnost_os.Task.Types.{
  max_tasks, TaskId, TaskState, TaskAction, Task, Scheduler, is_terminated, is_blocked,
  SchedulerError, invalid_task, task_not_finished,
}
use agnost_os.Task.Scheduler.{generation_at, spawn, state, wake, cancel, reap, set_state}
use agnost_os.Task.Scheduler.Slots.{IsValid, NotRunning}
use agnost_os.Task.Scheduler.Lifecycle.{state-eq, state-congr, live_cases, spawn-stale, spawn_lem}

abbrev pub woken : TaskState → TaskState
woken st = if is_blocked st then TaskState.ready else st

abbrev pub stopped : TaskState → TaskState
stopped st = if is_terminated st then st else TaskState.cancelled

module _ {W : Type 0} where
  -- `s'` differs from `s` only in what the slot of `id` holds.
  pub record SameElsewhere (s s' : Scheduler W) (id : TaskId) : Type 0 where
    pub others : (other : TaskId) → id.index ≢ other.index → state s' other ≡ state s other
    pub valid : IsValid s'

  SameElsewhere-refl : {s : Scheduler W} (id : TaskId) → IsValid s → SameElsewhere s s id
  SameElsewhere-refl id v = record { others = λ other ne. refl; valid = v }

  set_state-IsValid :
      {s : Scheduler W} (i : ℕ) (t : Task W) (st : TaskState)
      → IsValid s
      → st ≢ TaskState.running
      → IsValid (set_state s i t st)
  set_state-IsValid {s} i t st v h = record {
    tasks_sized = length-set s.tasks i _ ∙ v.tasks_sized;
    stacks_sized = v.stacks_sized;
    contexts_sized = v.contexts_sized;
    generations_sized = v.generations_sized;
    generations_fit = v.generations_fit;
    none_running = get_or-set_pred NotRunning s.tasks i _ none v.none_running h;
    no_current = v.no_current;
    next_in = v.next_in;
  }

  set_state-SameElsewhere :
      {s : Scheduler W} (id : TaskId) (t : Task W) (st : TaskState)
      → IsValid s
      → st ≢ TaskState.running
      → SameElsewhere s (set_state s id.index t st) id
  set_state-SameElsewhere {s} id t st v h = record {
    others = λ other ne.
        state-congr s (set_state s id.index t st) other
          (get_or-set_ne s.tasks id.index other.index _ none ne) refl;
    valid = set_state-IsValid id.index t st v h;
  }

  state-set_state :
      {s : Scheduler W} (id : TaskId) (t : Task W) (st : TaskState)
      → IsValid s
      → id.index < max_tasks
      → generation_at s id.index ≡ id.generation
      → state (set_state s id.index t st) id ≡ some st
  state-set_state {s} id t st v h g =
      state-eq (set_state s id.index t st) id _ _ h
        (get_or-set_self s.tasks id.index _ none (omega (arith, v.tasks_sized))) g
      ∙ rw (==-self id.generation)

  -- `r` is what an operation on the handle `id` does when it takes a live task's state by `f`: a
  -- handle that names no task is refused and changes nothing; a live one is accepted, and its
  -- task's state `st` becomes `f st`; nothing else changes.
  abbrev pub Updates :
      (TaskState → TaskState)
      → Scheduler W
      → TaskId
      → Result SchedulerError (Unit {0}) × Scheduler W
      → Type 0
  Updates f s id r =
      (state s id ≡ none → r ≡ (err invalid_task, s))
      × ((st : TaskState) → state s id ≡ some st → (r.0 ≡ ok tt) × (state r.1 id ≡ some (f st)))
      × SameElsewhere s r.1 id

  module _ (f : TaskState → TaskState) {s : Scheduler W} (id : TaskId) (v : IsValid s) where
    Updates-refused : state s id ≡ none → Updates f s id (err invalid_task, s)
    Updates-refused gone = (λ _. refl, λ st e. absurd (cc (e, gone)), SameElsewhere-refl id v)

    Updates-same :
        (t : Task W) → state s id ≡ some t.state → f t.state ≡ t.state → Updates f s id (ok tt, s)
    Updates-same t here kept = (
      λ gone. absurd (cc (gone, here)),
      λ st e. (refl, cc (here, e, kept)),
      SameElsewhere-refl id v,
    )

    Updates-set :
        (t : Task W) (st : TaskState)
        → state s id ≡ some t.state
        → id.index < max_tasks
        → generation_at s id.index ≡ id.generation
        → f t.state ≡ st
        → st ≢ TaskState.running
        → Updates f s id (ok tt, set_state s id.index t st)
    Updates-set t st here lt g new h = (
      λ gone. absurd (cc (gone, here)),
      λ st' e. (refl, cc (state-set_state id t st v lt g, here, e, new)),
      set_state-SameElsewhere id t st v h,
    )

  -- `wake` refuses a handle that names no task, makes a blocked task ready, accepts any other live
  -- task without changing it, leaves all other handles alone and keeps the scheduler valid.
  pub wake_lem : (s : Scheduler W) (id : TaskId) → IsValid s → Updates woken s id (wake s id)
  unfolding wake
  wake_lem s id v = elim (live_cases s id) [
    | inr (bad, gone) ↦
        subst (Updates woken s id) (sym (rw (bad, wake))) (Updates-refused woken id v gone)
    | inl (t, live, here, lt, g, _) ↦ elim (Bool-cases (is_blocked t.state)) [
      | inl b ↦
          subst (Updates woken s id) (sym (rw (live, wake, b)))
            (Updates-set woken id v t TaskState.ready here lt g (rw b) (λ e. cc))
      | inr b ↦
          subst (Updates woken s id) (sym (rw (live, wake, b)))
            (Updates-same woken id v t here (rw b))
    ]
  ]

  -- `cancel` refuses a handle that names no task, makes a live task cancelled unless it is finished
  -- or cancelled already, leaves all other handles alone and keeps the scheduler valid.
  pub cancel_lem : (s : Scheduler W) (id : TaskId) → IsValid s → Updates stopped s id (cancel s id)
  unfolding cancel
  cancel_lem s id v = elim (live_cases s id) [
    | inr (bad, gone) ↦
        subst (Updates stopped s id) (sym (rw (bad, cancel))) (Updates-refused stopped id v gone)
    | inl (t, live, here, lt, g, _) ↦ elim (Bool-cases (is_terminated t.state)) [
      | inl b ↦
          subst (Updates stopped s id) (sym (rw (live, cancel, b)))
            (Updates-same stopped id v t here (rw b))
      | inr b ↦
          subst (Updates stopped s id) (sym (rw (live, cancel, b)))
            (Updates-set stopped id v t TaskState.cancelled here lt g (rw b) (λ e. cc))
    ]
  ]

  -- What `reap` leaves of a terminated task.
  abbrev reaped : Scheduler W → TaskId → Scheduler W
  reaped s id = record s {
    tasks = set s.tasks id.index none;
    contexts = set s.contexts id.index new_context;
  }

  reap_cases :
      (s s' : Scheduler W) (id : TaskId)
      → reap s id ≡ (ok tt, s')
      → (t : Task W) × (s' ≡ reaped s id)
        × (state s id ≡ some t.state)
        × (is_terminated t.state ≡ true)
        × (id.index < max_tasks)
        × (generation_at s id.index ≡ id.generation)
  unfolding reap
  reap_cases s s' id e = elim (live_cases s id) [
    | inr (bad, gone) ↦
        let r : reap s id ≡ (err invalid_task, s) = rw (bad, reap) in absurd (cc (r, e))
    | inl (t, live, here, lt, g, _) ↦ elim (Bool-cases (is_terminated t.state)) [
      | inl b ↦
          let r : reap s id ≡ (ok tt, reaped s id) = rw (live, reap, b) in
          (t, cc (r, e), here, b, lt, g)
      | inr b ↦
          let r : reap s id ≡ (err task_not_finished, s) = rw (live, reap, b) in absurd (cc (r, e))
    ]
  ]

  reaped-IsValid : {s : Scheduler W} (id : TaskId) → IsValid s → IsValid (reaped s id)
  reaped-IsValid {s} id v = record {
    tasks_sized = length-set s.tasks id.index _ ∙ v.tasks_sized;
    stacks_sized = v.stacks_sized;
    contexts_sized = length-set s.contexts id.index _ ∙ v.contexts_sized;
    generations_sized = v.generations_sized;
    generations_fit = v.generations_fit;
    none_running = get_or-set_pred NotRunning s.tasks id.index _ none v.none_running tt;
    no_current = v.no_current;
    next_in = v.next_in;
  }

  -- The slot is free, and the handle's generation is still the slot's.
  record Freed (s s' : Scheduler W) (id : TaskId) : Type 0 where
    gone : state s' id ≡ none
    elsewhere : SameElsewhere s s' id
    in_range : id.index < max_tasks
    same_generation : generation_at s' id.index ≡ id.generation

  reaped-Freed :
      {s : Scheduler W} (id : TaskId)
      → IsValid s
      → id.index < max_tasks
      → generation_at s id.index ≡ id.generation
      → Freed s (reaped s id) id
  reaped-Freed {s} id v lt g = record {
    gone =
        state-eq (reaped s id) id none id.generation lt
          (get_or-set_self s.tasks id.index _ none (omega (arith, v.tasks_sized))) g
        ∙ rw (==-self id.generation);
    elsewhere = record {
      others = λ other ne.
          state-congr s (reaped s id) other (get_or-set_ne s.tasks id.index other.index _ none ne)
            refl;
      valid = reaped-IsValid id v;
    };
    in_range = lt;
    same_generation = g;
  }

  reap-Freed :
      {s s' : Scheduler W} {id : TaskId}
      → IsValid s
      → reap s id ≡ (ok tt, s')
      → ((t : Task W) × (state s id ≡ some t.state) × (is_terminated t.state ≡ true))
        × Freed s s' id
  reap-Freed {s} {s'} {id} v e =
      let (t, same, here, b, lt, g) = reap_cases s s' id e in
      ((t, here, b), subst (λ r. Freed s r id) (sym same) (reaped-Freed id v lt g))

  -- `reap` succeeds only for a finished or cancelled task. Its handle then names nothing, every
  -- handle of another slot names what it named, and the scheduler stays valid.
  pub reap_lem :
      {s s' : Scheduler W} {id : TaskId}
      → IsValid s
      → reap s id ≡ (ok tt, s')
      → ((t : Task W) × (state s id ≡ some t.state) × (is_terminated t.state ≡ true))
        × (state s' id ≡ none)
        × SameElsewhere s s' id
  reap_lem v e = let (was, freed) = reap-Freed v e in (was, freed.gone, freed.elsewhere)

  -- A reaped handle stays dead through the next spawn, also where that takes the same slot: the new
  -- handle differs from it, and it still names nothing.
  pub spawn-reap :
      {s s' s'' : Scheduler W} {old id : TaskId} (entry : W → TaskAction × W)
      → IsValid s
      → reap s old ≡ (ok tt, s')
      → spawn s' entry ≡ (ok id, s'')
      → (state s'' old ≡ none) × (old ≢ id)
  spawn-reap {s} {s'} {s''} {old} {id} entry v e f =
      let (_, freed) = reap-Freed v e in
      let (_, new, others, _) = spawn_lem entry freed.elsewhere.valid f in
      let dead : state s'' old ≡ none =
        spawn-stale entry old freed.elsewhere.valid freed.in_range freed.same_generation freed.gone
          f in
      (dead, λ same. cc (dead, new, ap (state s'') same))
