-- ===== src/Task/Scheduler/Search.antt =====
-- `find_next_ready`: the first ready slot in round-robin order.
use agnost_os.Base.{
  ℕ, zero, suc, ◌+◌, ◌-◌, ◌%◌, ◌≤◌, ◌<◌, ◌≡◌, refl, Bool, true, false, Option, none, some, arith,
  if◌then◌else◌, inl, inr, Bool-cases, Option-cases, ◌==◌, ==→eq, ==→ne, ◌↔◌, ltb, ltb→lt, ltb→le,
}
use mathlib.Core.Path.{subst}
use agnost_os.Task.Types.{max_tasks, Scheduler}
use agnost_os.Task.Scheduler.{task_at, slot_ready, find_ready_from, find_next_ready}

-- How far a slot lies ahead of another in round-robin order.
abbrev pub distance : ℕ → ℕ → ℕ
distance from to = (to + max_tasks - from) % max_tasks

-- Every slot is at one offset from `next`.
at_distance :
    (next j : ℕ) → next < max_tasks → j < max_tasks → (next + distance next j) % max_tasks ≡ j
at_distance next j a b = omega arith

module _ {W : Type 0} where
  -- The search's result: the first offset whose slot is ready, or none of those searched.
  abbrev FoundFrom : Scheduler W → ℕ → ℕ → Option ℕ → Type 0
  FoundFrom s n offset none =
      (j : ℕ)
      → offset ≤ j
      → j < offset + n
      → slot_ready (task_at s ((s.next + j) % max_tasks)) ≡ false
  FoundFrom s n offset (some i) =
      (k : ℕ) × (offset ≤ k)
      × (k < offset + n)
      × (i ≡ (s.next + k) % max_tasks)
      × (slot_ready (task_at s i) ≡ true)
      × ((j : ℕ) → offset ≤ j → j < k → slot_ready (task_at s ((s.next + j) % max_tasks)) ≡ false)

  find_ready_from_lem :
      (s : Scheduler W) (n offset : ℕ) → FoundFrom s n offset (find_ready_from s n offset)
  unfolding find_ready_from
  find_ready_from_lem s zero offset = λ j a b. absurd (omega arith)
  find_ready_from_lem s (suc n) offset =
      step (slot_ready (task_at s ((s.next + offset) % max_tasks))) refl
        (find_ready_from s n (offset + 1)) (find_ready_from_lem s n (offset + 1))
    where
      later :
          slot_ready (task_at s ((s.next + offset) % max_tasks)) ≡ false
          → (b : ℕ)
          → ((j : ℕ)
              → offset + 1 ≤ j
              → j < b
              → slot_ready (task_at s ((s.next + j) % max_tasks)) ≡ false)
          → (j : ℕ) → offset ≤ j
          → j < b
          → slot_ready (task_at s ((s.next + j) % max_tasks)) ≡ false
      later e b h j lo hi = elim (Bool-cases (j == offset)) [
        | inl same ↦ rw (==→eq j offset same) e
        | inr other ↦ h j (omega (arith, ==→ne j offset other)) hi
      ]

      step :
          (b : Bool)
          → slot_ready (task_at s ((s.next + offset) % max_tasks)) ≡ b
          → (rest : Option ℕ) → FoundFrom s n (offset + 1) rest
          → FoundFrom s (suc n) offset (if b then some ((s.next + offset) % max_tasks) else rest)
      step true e rest h =
          (offset, omega arith, omega arith, refl, e, λ j a b. absurd (omega arith))
      step false e none h = λ j a b. later e (offset + 1 + n) h j a (omega arith)
      step false e (some i) (k, a, b, c, d, h) = (k, omega arith, omega arith, c, d, later e k h)

  find_next_ready-Found : (s : Scheduler W) → FoundFrom s max_tasks 0 (find_next_ready s)
  unfolding find_next_ready
  find_next_ready-Found s = find_ready_from_lem s max_tasks 0

  -- The slot found is ready, and no ready slot comes before it in round-robin order from `next`.
  pub find_next_ready-some :
      (s : Scheduler W) {i : ℕ}
      → s.next < max_tasks
      → find_next_ready s ≡ some i
      → (i < max_tasks)
        × (slot_ready (task_at s i) ≡ true)
        × ((j : ℕ)
            → j < max_tasks
            → slot_ready (task_at s j) ≡ true
            → distance s.next i ≤ distance s.next j)
  find_next_ready-some s {i} lt e =
      let (k, _, k_lt, at, here, before) =
        subst (FoundFrom s max_tasks 0) e (find_next_ready-Found s) in
      (
        omega arith,
        here,
        λ j j_lt there. elim (Bool-cases (ltb (distance s.next j) k)) [
          | inl earlier ↦
              let quiet : slot_ready (task_at s j) ≡ false =
                rw (← at_distance s.next j lt j_lt)
                  (before (distance s.next j) (omega arith) (ltb→lt _ _ earlier)) in
              absurd (cc (quiet, there))
          | inr later ↦ omega (arith, ltb→le (distance s.next j) k later)
        ],
      )

  -- No slot is found exactly when none is ready.
  pub find_next_ready-none :
      (s : Scheduler W)
      → s.next < max_tasks
      → (find_next_ready s ≡ none) ↔ ((j : ℕ) → j < max_tasks → slot_ready (task_at s j) ≡ false)
  find_next_ready-none s lt = (
    λ e j j_lt. rw (← at_distance s.next j lt j_lt) (
        subst (FoundFrom s max_tasks 0) e (find_next_ready-Found s) (distance s.next j)
          (omega arith) (omega arith)),
    λ quiet. elim (Option-cases (find_next_ready s)) [
      | inl e ↦ e
      | inr (i, e) ↦
          let (i_lt, here, _) = find_next_ready-some s lt e in absurd (cc (here, quiet i i_lt))
    ],
  )
