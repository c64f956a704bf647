-- ===== src/Task/Scheduler/Slots.antt =====
-- The task table: the scheduler's invariant, and what each slot holds after a change.
use agnost_os.Base.{
  ℕ, zero, suc, ◌+◌, ◌-◌, ◌^◌, ◌≤◌, ◌<◌, ◌≡◌, ◌≢◌, refl, ap, ◌∙◌, Option, none, some, List, [], ◌∷◌,
  map, arith, length, get_or, get_or-replicate, replicate,
}
use agnost_os.Task.Stack.{task_stack_size}
use agnost_os.Task.Types.{max_tasks, TaskState, Task, Scheduler, wake_state}
use agnost_os.Task.Scheduler.{
  new, stacks_at, task_at, generation_at, find_free, wake_slot, wake_expired,
}

length-stacks_at : (n address : ℕ) → length (stacks_at n address) ≡ n
unfolding stacks_at
length-stacks_at zero address = refl
length-stacks_at (suc n) address = ap suc (length-stacks_at n (address + task_stack_size))

wake_state-running :
    (now : ℕ) (st : TaskState) → st ≢ TaskState.running → wake_state now st ≢ TaskState.running
unfolding wake_state
wake_state-running now st h = ground arith

module _ {W : Type 0} where
  abbrev pub NotRunning : Option (Task W) → Type 0
  NotRunning none = Unit
  NotRunning (some t) = t.state ≢ TaskState.running

  -- What holds between the calls of a scheduler: the tables have their fixed sizes, generations are
  -- 32-bit values, and no task is running.
  pub record IsValid (s : Scheduler W) : Type 0 where
    pub tasks_sized : length s.tasks ≡ max_tasks
    pub stacks_sized : length s.stacks ≡ max_tasks
    pub contexts_sized : length s.contexts ≡ max_tasks
    pub generations_sized : length s.generations ≡ max_tasks
    pub generations_fit : (i : ℕ) → generation_at s i < 2 ^ 32
    pub none_running : (i : ℕ) → NotRunning (task_at s i)
    pub no_current : s.current ≡ none
    pub next_in : s.next < max_tasks

  pub IsValid-new : (address : ℕ) → IsValid (new address)
  unfolding new
  IsValid-new address = record {
    tasks_sized = refl;
    stacks_sized = length-stacks_at max_tasks address;
    contexts_sized = refl;
    generations_sized = refl;
    generations_fit = λ i. ground (arith, get_or-replicate {A = ℕ} max_tasks i 0);
    none_running = λ i.
        let e : get_or {A = Option (Task W)} (replicate max_tasks none) i none ≡ none =
          get_or-replicate max_tasks i none in
        rw e tt;
    no_current = refl;
    next_in = omega arith;
  }

  pub find_free-some :
      (slots : List (Option (Task W))) (i k : ℕ)
      → find_free slots i ≡ some k
      → (i ≤ k) × (k < i + length slots) × (get_or slots (k - i) none ≡ none)
  unfolding find_free
  find_free-some [] i k h = cc
  find_free-some (none ∷ slots) i k h = ground arith
  find_free-some (some t ∷ slots) i k h = found (find_free-some slots (i + 1) k h)
    where
      found :
          (i + 1 ≤ k) × (k < i + 1 + length slots) × (get_or slots (k - (i + 1)) none ≡ none)
          → (i ≤ k) × (k < i + suc (length slots)) × (get_or (some t ∷ slots) (k - i) none ≡ none)
      found (a, b, c) =
          (omega arith, omega arith, let e : k - i ≡ suc (k - (i + 1)) = omega arith in rw e c)

  pub find_free-none :
      (slots : List (Option (Task W))) (i j : ℕ)
      → find_free slots i ≡ none
      → j < length slots
      → (t : Task W) × (get_or slots j none ≡ some t)
  unfolding find_free
  find_free-none [] i j h lt = elim lt [ ]
  find_free-none (none ∷ slots) i j h lt = cc
  find_free-none (some t ∷ slots) i zero h lt = (t, refl)
  find_free-none (some t ∷ slots) i (suc j) h lt = find_free-none slots (i + 1) j h (omega arith)

  pub find_free-full :
      (slots : List (Option (Task W))) (i : ℕ)
      → ((j : ℕ) → j < length slots → get_or slots j none ≢ none)
      → find_free slots i ≡ none
  unfolding find_free
  find_free-full [] i h = refl
  find_free-full (none ∷ slots) i h = absurd (h 0 (omega arith) refl)
  find_free-full (some t ∷ slots) i h =
      find_free-full slots (i + 1) (λ j lt. h (suc j) (omega arith))

  pub get_or-wake :
      (now : ℕ) (slots : List (Option (Task W))) (i : ℕ)
      → get_or (map (wake_slot now) slots) i none ≡ wake_slot now (get_or slots i none)
  unfolding wake_slot
  get_or-wake now [] i = refl
  get_or-wake now (x ∷ slots) zero = refl
  get_or-wake now (x ∷ slots) (suc i) = get_or-wake now slots i

  pub length-wake :
      (now : ℕ) (slots : List (Option (Task W))) → length (map (wake_slot now) slots) ≡ length slots
  length-wake now [] = refl
  length-wake now (x ∷ slots) = ap suc (length-wake now slots)

  -- Each slot after `wake_expired`.
  pub task_at-wake_expired :
      (s : Scheduler W) (now i : ℕ) → task_at (wake_expired s now) i ≡ wake_slot now (task_at s i)
  unfolding wake_expired
  task_at-wake_expired s now i = get_or-wake now s.tasks i

  wake_slot-NotRunning :
      (now : ℕ) (o : Option (Task W)) → NotRunning o → NotRunning (wake_slot now o)
  unfolding wake_slot
  wake_slot-NotRunning now none h = h
  wake_slot-NotRunning now (some t) h = wake_state-running now t.state h

  pub wake_expired-IsValid : {s : Scheduler W} (now : ℕ) → IsValid s → IsValid (wake_expired s now)
  unfolding wake_expired
  wake_expired-IsValid {s} now v = record {
    tasks_sized = length-wake now s.tasks ∙ v.tasks_sized;
    stacks_sized = v.stacks_sized;
    contexts_sized = v.contexts_sized;
    generations_sized = v.generations_sized;
    generations_fit = v.generations_fit;
    none_running = λ i.
        rw (get_or-wake now s.tasks i) (wake_slot-NotRunning now (task_at s i) (v.none_running i));
    no_current = v.no_current;
    next_in = v.next_in;
  }
