-- ===== src/Task/Scheduler/Lifecycle.antt =====
-- Spawning, waking, cancelling and reaping, as seen through `state`.
use agnost_os.Base.{
  ℕ, ◌-◌, ◌^◌, ◌≤◌, ◌<◌, ◌≡◌, ◌≢◌, ◌⊎◌, ap, sym, ◌∙◌, Option, none, some, arith, ◌==◌,
  if◌then◌else◌, length-set, Option-cases, inl, inr, ok, err, leb, get_or-set_self, get_or-set_ne,
  get_or-set_pred, Bool-cases, ==→eq, ==→ne, ==-self, ==-ne, leb→lt, ◌↔◌,
}
use mathlib.Core.Path.{subst, subst₂}
use agnost_os.Task.Types.{
  max_tasks, TaskId, TaskState, TaskAction, Task, Scheduler, next_generation, no_task_slots,
  invalid_task,
}
use agnost_os.Task.Scheduler.{
  task_at, generation_at, find_free, occupy, spawn, state, valid_task, live_task,
}
use agnost_os.Task.Scheduler.Slots.{IsValid, NotRunning, find_free-some, find_free-none}

next_generation_bounds :
    (g : ℕ)
    → g < 2 ^ 32
    → (0 < next_generation g) × (next_generation g < 2 ^ 32) × (next_generation g ≢ g)
unfolding next_generation
next_generation_bounds g h = ground arith

module _ {W : Type 0} where
  -- What a handle names: the state of its slot, while the generation is still the slot's.
  pub state-eq :
      (s : Scheduler W) (id : TaskId) (o : Option (Task W)) (g : ℕ)
      → id.index < max_tasks
      → task_at s id.index ≡ o
      → generation_at s id.index ≡ g
      → state s id ≡ (
          if g == id.generation
          then elim o as (λ _. Option TaskState) [ none ↦ none | some t ↦ some t.state ]
          else none)
  unfolding state
  state-eq s id o g h e f = ground arith

  state-out : (s : Scheduler W) (id : TaskId) → max_tasks ≤ id.index → state s id ≡ none
  unfolding state
  state-out s id h = ground arith

  -- Two schedulers that agree on a slot agree on the handles of that slot.
  pub state-congr :
      (s s' : Scheduler W) (id : TaskId)
      → task_at s' id.index ≡ task_at s id.index
      → generation_at s' id.index ≡ generation_at s id.index
      → state s' id ≡ state s id
  unfolding state
  state-congr s s' id e f = ground arith

  occupy-IsValid :
      {s : Scheduler W} (entry : W → TaskAction × W) (i : ℕ)
      → IsValid s
      → i < max_tasks
      → IsValid (occupy s entry i).1
  unfolding occupy
  occupy-IsValid {s} entry i v h = record {
    tasks_sized = length-set s.tasks i _ ∙ v.tasks_sized;
    stacks_sized = v.stacks_sized;
    contexts_sized = v.contexts_sized;
    generations_sized = length-set s.generations i _ ∙ v.generations_sized;
    generations_fit =
        get_or-set_pred (λ g. g < 2 ^ 32) s.generations i _ 0 v.generations_fit
          (next_generation_bounds _ (v.generations_fit i)).1;
    none_running = get_or-set_pred NotRunning s.tasks i _ none v.none_running (λ e. cc);
    no_current = v.no_current;
    next_in = v.next_in;
  }

  state-occupy_self :
      {s : Scheduler W} (entry : W → TaskAction × W) (i : ℕ)
      → IsValid s
      → i < max_tasks
      → state (occupy s entry i).1 (occupy s entry i).0 ≡ some TaskState.ready
  unfolding occupy
  state-occupy_self {s} entry i v h =
      state-eq (occupy s entry i).1 (occupy s entry i).0 _ _ h
        (get_or-set_self s.tasks i _ none (omega (arith, v.tasks_sized)))
        (get_or-set_self s.generations i _ 0 (omega (arith, v.generations_sized)))
      ∙ rw (==-self (next_generation (generation_at s i)))

  state-occupy_other :
      (s : Scheduler W) (entry : W → TaskAction × W) (i : ℕ) (other : TaskId)
      → i ≢ other.index
      → state (occupy s entry i).1 other ≡ state s other
  unfolding occupy
  state-occupy_other s entry i other ne =
      state-congr s (occupy s entry i).1 other (get_or-set_ne s.tasks i other.index _ none ne)
        (get_or-set_ne s.generations i other.index _ 0 ne)

  -- The slot's handle from before the spawn names nothing after it.
  pub state-occupy_old :
      {s : Scheduler W} (entry : W → TaskAction × W) (old : TaskId)
      → IsValid s
      → old.index < max_tasks
      → generation_at s old.index ≡ old.generation
      → state (occupy s entry old.index).1 old ≡ none
  unfolding occupy
  state-occupy_old {s} entry old v h f =
      state-eq (occupy s entry old.index).1 old _ _ h
        (get_or-set_self s.tasks old.index _ none (omega (arith, v.tasks_sized)))
        (get_or-set_self s.generations old.index _ 0 (omega (arith, v.generations_sized)))
      ∙ ap (λ b. if b then some TaskState.ready else none)
          (==-ne _ _ (λ q. (next_generation_bounds _ (v.generations_fit old.index)).2 (q ∙ sym f)))

  -- The outcome of `spawn`, by the search for a free slot.
  pub spawn_cases :
      {s : Scheduler W} (entry : W → TaskAction × W)
      → IsValid s
      → ((spawn s entry ≡ (err no_task_slots, s)) × (find_free s.tasks 0 ≡ none))
        ⊎ ((i : ℕ) × (i < max_tasks)
            × (task_at s i ≡ none)
            × (spawn s entry ≡ (ok (occupy s entry i).0, (occupy s entry i).1)))
  unfolding spawn
  spawn_cases {s} entry v = elim (Option-cases (find_free s.tasks 0)) [
    | inl e ↦ inl (rw (e, spawn), e)
    | inr (i, e) ↦
        let (a, b, c) = find_free-some s.tasks 0 i e in
        inr (
          i,
          omega (arith, v.tasks_sized),
          let z : i - 0 ≡ i = omega arith in rw z at c,
          rw (e, spawn),
        )
  ]

  -- A successful spawn takes a free slot: the new handle names a ready task, no handle of another
  -- slot changes what it names, and the scheduler stays valid.
  pub spawn_lem :
      {s s' : Scheduler W} {id : TaskId} (entry : W → TaskAction × W)
      → IsValid s
      → spawn s entry ≡ (ok id, s')
      → (task_at s id.index ≡ none)
        × (state s' id ≡ some TaskState.ready)
        × ((other : TaskId) → id.index ≢ other.index → state s' other ≡ state s other)
        × IsValid s'
  unfolding occupy
  spawn_lem {s} {s'} {id} entry v e = elim (spawn_cases entry v) [
    | inl (full, _) ↦ absurd (cc full)
    | inr (i, lt, free, done) ↦
        subst₂
          (λ (i' : TaskId) (t' : Scheduler W).
            (task_at s i'.index ≡ none)
            × (state t' i' ≡ some TaskState.ready)
            × ((other : TaskId) → i'.index ≢ other.index → state t' other ≡ state s other)
            × IsValid t')
          (cc (done, e)) (cc (done, e))
          (
            free,
            state-occupy_self entry i v lt,
            state-occupy_other s entry i,
            occupy-IsValid entry i v lt,
          )
  ]

  -- A dead handle whose generation is still its slot's stays dead through a spawn.
  pub spawn-stale :
      {s s' : Scheduler W} {id : TaskId} (entry : W → TaskAction × W) (old : TaskId)
      → IsValid s
      → old.index < max_tasks
      → generation_at s old.index ≡ old.generation
      → state s old ≡ none
      → spawn s entry ≡ (ok id, s')
      → state s' old ≡ none
  unfolding occupy
  spawn-stale {s} {s'} {id} entry old v lt g gone e = elim (spawn_cases entry v) [
    | inl (full, _) ↦ absurd (cc (full, e))
    | inr (i, _, _, done) ↦ elim (Bool-cases (i == old.index)) [
      | inl same ↦
          let old_slot : s' ≡ (occupy s entry old.index).1 =
            subst (λ j. s' ≡ (occupy s entry j).1) (==→eq i old.index same) (cc (done, e)) in
          rw old_slot (state-occupy_old entry old v lt g)
      | inr other ↦
          let new_slot : s' ≡ (occupy s entry i).1 = cc (done, e) in
          rw new_slot (state-occupy_other s entry i old (==→ne i old.index other) ∙ gone)
    ]
  ]

  -- `spawn` fails exactly when every slot holds a task, and then changes nothing.
  pub spawn-full :
      {s : Scheduler W} (entry : W → TaskAction × W)
      → IsValid s
      → (spawn s entry ≡ (err no_task_slots, s)) ↔ ((i : ℕ) → i < max_tasks → task_at s i ≢ none)
  spawn-full {s} entry v = (
    (λ failed i lt free. elim (spawn_cases entry v) [
      | inl (_, full) ↦
          let (t, e) = find_free-none s.tasks 0 i full (omega (arith, v.tasks_sized)) in
          cc (e, free)
      | inr (i, _, _, done) ↦ cc (done, failed)
    ]),
    λ full. elim (spawn_cases entry v) [
      | inl (failed, _) ↦ failed
      | inr (i, lt, free, _) ↦ absurd (full i lt free)
    ],
  )

  -- The two outcomes of `valid_task(task)?.ok_or(InvalidTask)`.
  pub live_cases :
      (s : Scheduler W) (id : TaskId)
      → ((t : Task W) × (live_task s id ≡ ok t)
          × (state s id ≡ some t.state)
          × (id.index < max_tasks)
          × (generation_at s id.index ≡ id.generation)
          × (task_at s id.index ≡ some t))
        ⊎ ((live_task s id ≡ err invalid_task) × (state s id ≡ none))
  unfolding valid_task state
  live_cases s id = elim (Bool-cases (leb max_tasks id.index)) [
    | inl e ↦ inr (rw e, rw (e, state))
    | inr e ↦ elim (Bool-cases (generation_at s id.index == id.generation)) [
      | inr f ↦ inr (rw (e, f), rw (e, f, state))
      | inl f ↦ elim (Option-cases (task_at s id.index)) [
        | inl g ↦ inr (rw (e, f, g), rw (e, f, g, state))
        | inr (t, g) ↦ inl (t, rw (e, f, g), rw (e, f, g, state), leb→lt _ _ e, ==→eq _ _ f, g)
      ]
    ]
  ]
