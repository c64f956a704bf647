-- ===== src/Input/Ring.antt =====
-- The `ringbuf` crate, as the two input queues of src/mouse/mod.rs and src/keyboard/mod.rs use it:
-- a queue of at most 256 bytes with one end to push and one to pop.
use agnost_os.Base.{
  ℕ, ◌<◌, ◌≤◌, ◌≡◌, Bool, true, false, Option, none, some, List, [], ◌∷◌, ◌++◌, length,
}

-- `RB_SIZE`.
abbrev pub rb_size : ℕ
rb_size = 256

-- The crate's operations, and what its documentation promises of the bytes in the queue.
pub record RingBuffer : Type 1 where
  pub Queue : Type 0
  pub empty : Queue
  pub try_push : Queue → ℕ → Bool × Queue
  pub try_pop : Queue → Option ℕ × Queue
  pub is_empty : Queue → Bool
  pub contents : Queue → List ℕ
  pub contents-empty : contents empty ≡ []
  pub push-room :
      (q : Queue) (b : ℕ)
      → length (contents q) < rb_size
      → ((try_push q b).0 ≡ true) × (contents (try_push q b).1 ≡ contents q ++ b ∷ [])
  pub push-full : (q : Queue) (b : ℕ) → rb_size ≤ length (contents q) → try_push q b ≡ (false, q)
  pub pop-none : (q : Queue) → contents q ≡ [] → try_pop q ≡ (none, q)
  pub pop-some :
      (q : Queue) (b : ℕ) (bs : List ℕ)
      → contents q ≡ b ∷ bs
      → ((try_pop q).0 ≡ some b) × (contents (try_pop q).1 ≡ bs)
  pub is_empty-none : (q : Queue) → contents q ≡ [] → is_empty q ≡ true
  pub is_empty-some : (q : Queue) (b : ℕ) (bs : List ℕ) → contents q ≡ b ∷ bs → is_empty q ≡ false
