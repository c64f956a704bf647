-- ===== src/Task/Scheduler/Woken.antt =====
-- What the clock and a task's own answer make of its state.
use agnost_os.Base.{ℕ, ◌≤◌, ◌<◌, ◌≡◌, ◌≢◌, refl, ap, false, Option, none, some, arith}
use agnost_os.Task.Types.{
  TaskState, TaskAction, Task, after_action, wake_state, yield, sleep_until, block, exit,
}
use agnost_os.Task.Scheduler.{wake_slot, slot_ready}

-- What a task's answer makes of it: a task that yields is ready, one that asks to sleep is ready if
-- that time has come and sleeps until then if not, one that blocks is blocked, and one that exits is
-- finished.
pub record IsLeft (now : ℕ) (action : TaskAction) (left : TaskState) : Type 0 where
  pub yielded : action ≡ yield → left ≡ TaskState.ready
  pub slept :
      (until : ℕ) → action ≡ sleep_until until → now < until → left ≡ TaskState.sleeping until
  pub rested : (until : ℕ) → action ≡ sleep_until until → until ≤ now → left ≡ TaskState.ready
  pub blocked : action ≡ block → left ≡ TaskState.blocked
  pub exited : action ≡ exit → left ≡ TaskState.finished

pub after_action-IsLeft :
    (now : ℕ) (action : TaskAction) → IsLeft now action (after_action now action)
unfolding after_action
after_action-IsLeft now action = record {
  yielded = λ e. ground arith;
  slept = λ until e lt. ground arith;
  rested = λ until e le. ground arith;
  blocked = λ e. ground arith;
  exited = λ e. ground arith;
}

-- What waking makes of a slot: an empty one stays empty, and a task keeps its entry; if it sleeps
-- until a time that has come, it is ready, and else its state is as it was.
pub record IsWoken {W : Type 0} (now : ℕ) (before after : Option (Task W)) : Type 0 where
  pub empty : before ≡ none → after ≡ none
  pub elapsed :
      (t : Task W) (until : ℕ)
      → before ≡ some t
      → t.state ≡ TaskState.sleeping until
      → until ≤ now
      → after ≡ some (record t { state = TaskState.ready })
  pub early :
      (t : Task W) (until : ℕ)
      → before ≡ some t
      → t.state ≡ TaskState.sleeping until
      → now < until
      → after ≡ before
  pub awake :
      (t : Task W)
      → before ≡ some t
      → ((until : ℕ) → t.state ≢ TaskState.sleeping until)
      → after ≡ before

wake_state-awake :
    (now : ℕ) (st : TaskState)
    → ((until : ℕ) → st ≢ TaskState.sleeping until)
    → wake_state now st ≡ st
unfolding wake_state
wake_state-awake now TaskState.ready ne = refl
wake_state-awake now TaskState.running ne = refl
wake_state-awake now TaskState.blocked ne = refl
wake_state-awake now (TaskState.sleeping until) ne = absurd (ne until refl)
wake_state-awake now TaskState.finished ne = refl
wake_state-awake now TaskState.cancelled ne = refl

pub not_ready :
    {W : Type 0} (slot : Option (Task W)) (t : Task W)
    → slot_ready slot ≡ false
    → slot ≡ some t
    → t.state ≢ TaskState.ready
not_ready slot t h e r = ground arith

pub wake_slot-IsWoken :
    {W : Type 0} (now : ℕ) (slot : Option (Task W)) → IsWoken now slot (wake_slot now slot)
unfolding wake_slot wake_state
wake_slot-IsWoken now slot = record {
  empty = λ e. rw e refl;
  elapsed = λ t until e st le. ground arith;
  early = λ t until e st lt. ground arith;
  awake =
      λ t e ne. rw e (ap (λ st. some (record t { state = st })) (wake_state-awake now t.state ne));
}
