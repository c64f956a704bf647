-- ===== src/Task/Scheduler/Fairness.antt =====
-- Round robin: every ready task is served within one round, and `run_ready` stops only when it has
-- used its budget or nothing is ready.
use agnost_os.Base.{
  ℕ, zero, suc, ◌+◌, ◌%◌, ◌≤◌, ◌<◌, ◌≡◌, ◌≢◌, ◌⊎◌, refl, ap, ◌∙◌, true, false, Option, none, some,
  List, [], ◌∷◌, arith, length, get_or, inl, inr, Result, ok, Bool-cases, ◌==◌, ==→eq, ==→ne,
}
use agnost_os.Task.Types.{max_tasks, TaskId, Task, Scheduler, SchedulerError, wake_state}
use agnost_os.Task.Scheduler.{
  task_at, generation_at, wake_slot, slot_ready, run_next, run_ready_loop, run_ready,
}
use agnost_os.Task.Scheduler.Slots.{IsValid}
use agnost_os.Task.Scheduler.Search.{distance}
use agnost_os.Task.Scheduler.Dispatch.{run_next_lem}

-- One of the calls ran the task of the handle.
abbrev pub Serves : TaskId → List (Result SchedulerError (Option TaskId)) → Type 0
Serves id [] = ⊥
Serves id (r ∷ rs) = (r ≡ ok (some id)) ⊎ Serves id rs

closer :
    (next i j : ℕ)
    → next < max_tasks
    → i < max_tasks
    → j < max_tasks
    → i ≢ j
    → distance next i ≤ distance next j
    → distance ((i + 1) % max_tasks) j < distance next j
closer next i j a b c ne le = omega arith

module _ {W : Type 0} where
  -- What the calls of `run_next` at the given ticks return, in order.
  unfoldable pub runs : ℕ → List ℕ → Scheduler W → W → List (Result SchedulerError (Option TaskId))
  runs trampoline [] s w = []
  runs trampoline (now ∷ ticks) s w =
      let (r, s', w') = run_next trampoline s now w in r ∷ runs trampoline ticks s' w'

  wake_slot-ready :
      (now : ℕ) (o : Option (Task W)) → slot_ready o ≡ true → slot_ready (wake_slot now o) ≡ true
  unfolding wake_slot wake_state
  wake_slot-ready now none h = h
  wake_slot-ready now (some t) h = ground arith

  -- One call serves the task of slot `j`, or brings its turn nearer and leaves it ready.
  progress :
      (trampoline now : ℕ) (s : Scheduler W) (w : W) (j : ℕ)
      → IsValid s
      → j < max_tasks
      → slot_ready (task_at s j) ≡ true
      → let (r, s', w') = run_next trampoline s now w in
        ((r ≡ ok (some (record { index = j; generation = generation_at s j })))
          ⊎ ((slot_ready (task_at s' j) ≡ true)
              × (generation_at s' j ≡ generation_at s j)
              × (distance s'.next j < distance s.next j)))
        × IsValid s'
  progress trampoline now s w j v lt is =
      let (outcome, valid) = run_next_lem trampoline now w v in
      let awake = wake_slot-ready now (task_at s j) is in
      (
        elim outcome [
          | inl idle ↦ absurd (cc (idle.none_ready j lt, awake))
          | inr (i, t, run) ↦ elim (Bool-cases (i == j)) [
            | inl same ↦ inl (
                run.returned
                ∙ ap (λ k. ok (some (record { index = k; generation = generation_at s k })))
                    (==→eq i j same))
            | inr other ↦ inr (
              ap slot_ready (run.others j (==→ne i j other)) ∙ awake,
              ap (λ gs. get_or gs j 0) run.generations_kept,
              rw run.advanced (
                  closer s.next i j v.next_in run.in_range lt (==→ne i j other)
                    (run.first j lt awake)),
            )
          ]
        ],
        valid,
      )

  waits :
      (trampoline : ℕ) (ticks : List ℕ) (s : Scheduler W) (w : W) (j g : ℕ)
      → IsValid s
      → j < max_tasks
      → generation_at s j ≡ g
      → slot_ready (task_at s j) ≡ true
      → distance s.next j < length ticks
      → Serves (record { index = j; generation = g }) (runs trampoline ticks s w)
  unfolding runs
  waits trampoline [] s w j g v lt gen is short = absurd (omega arith)
  waits trampoline (now ∷ ticks) s w j g v lt gen is short =
      let (outcome, valid) = progress trampoline now s w j v lt is in
      elim outcome [
        | inl served ↦ inl (rw (← gen) served)
        | inr (still, same, nearer) ↦ inr (
            waits trampoline ticks (run_next trampoline s now w).1 (run_next trampoline s now w).2 j
              g valid lt (same ∙ gen) still (omega arith))
      ]

  -- No ready task starves: whatever the tasks do and whatever the ticks are, 64 calls of `run_next`
  -- run the task of every slot that is ready at the start.
  pub served_in_a_round :
      (trampoline : ℕ) (ticks : List ℕ) (s : Scheduler W) (w : W) (j : ℕ)
      → IsValid s
      → j < max_tasks
      → slot_ready (task_at s j) ≡ true
      → length ticks ≡ max_tasks
      → Serves (record { index = j; generation = generation_at s j }) (runs trampoline ticks s w)
  served_in_a_round trampoline ticks s w j v lt is full =
      waits trampoline ticks s w j (generation_at s j) v lt refl is (omega arith)

  -- What `run_ready` returns: the number of dispatches, at most the budget; with budget left over,
  -- no task is ready.
  pub record Drained (dispatched left : ℕ) (r : Result SchedulerError ℕ) (s' : Scheduler W)
      : Type 0 where
    pub count : ℕ
    pub returned : r ≡ ok count
    pub at_least : dispatched ≤ count
    pub within : count ≤ dispatched + left
    pub quiet :
        count < dispatched + left → (j : ℕ) → j < max_tasks → slot_ready (task_at s' j) ≡ false
    pub valid : IsValid s'

  run_ready_loop-Drained :
      (trampoline left dispatched : ℕ) (s : Scheduler W) (now : ℕ) (w : W)
      → IsValid s
      → Drained dispatched left
          (run_ready_loop trampoline left dispatched s now w).0
          (run_ready_loop trampoline left dispatched s now w).1
  unfolding run_ready_loop
  run_ready_loop-Drained trampoline zero dispatched s now w v = record {
    count = dispatched;
    returned = refl;
    at_least = omega arith;
    within = omega arith;
    quiet = λ h. absurd (omega arith);
    valid = v;
  }
  run_ready_loop-Drained trampoline (suc left) dispatched s now w v =
      let (outcome, valid) = run_next_lem trampoline now w v in
      elim outcome [
        | inl idle ↦
            rw (idle.returned, run_ready_loop)
              (record {
                count = dispatched;
                returned = refl;
                at_least = omega arith;
                within = omega arith;
                quiet = λ h j lt. ap slot_ready (idle.slots j) ∙ idle.none_ready j lt;
                valid = valid;
              })
        | inr (i, t, run) ↦
            let rest =
              run_ready_loop-Drained trampoline left (dispatched + 1)
                (run_next trampoline s now w).1 now (run_next trampoline s now w).2 valid in
            rw (run.returned, run_ready_loop)
              (record {
                count = rest.count;
                returned = rest.returned;
                at_least = omega (arith, rest.at_least);
                within = omega (arith, rest.within);
                quiet = λ h. rest.quiet (omega arith);
                valid = rest.valid;
              })
      ]

  -- `run_ready` never fails and makes at most `budget` dispatches. If it makes fewer, no task is
  -- ready when it returns; the scheduler stays valid.
  pub run_ready_lem :
      (trampoline : ℕ) (s : Scheduler W) (now budget : ℕ) (w : W)
      → IsValid s
      → let (r, s', w') = run_ready trampoline s now budget w in
        (count : ℕ) × (r ≡ ok count)
        × (count ≤ budget)
        × (count < budget → (j : ℕ) → j < max_tasks → slot_ready (task_at s' j) ≡ false)
        × IsValid s'
  unfolding run_ready
  run_ready_lem trampoline s now budget w v =
      let d = run_ready_loop-Drained trampoline budget 0 s now w v in
      (d.count, d.returned, omega (arith, d.within), λ h. d.quiet (omega arith), d.valid)
