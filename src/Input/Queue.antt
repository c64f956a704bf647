-- ===== src/Input/Queue.antt =====
-- src/mouse/mod.rs: the queue between the mouse interrupt and the shell. The keyboard has its own
-- of the same kind (src/keyboard/mod.rs).
use agnost_os.Base.{
  ℕ, zero, suc, ◌+◌, ◌-◌, ◌%◌, ◌^◌, ◌≤◌, ◌<◌, ◌≡◌, refl, sym, ap, ◌∙◌, Bool, true, false, Option,
  none, some, List, [], ◌∷◌, ◌++◌, map, arith, ltb, if◌then◌else◌, Bool-cases, inl, inr, length,
  length-append, All, bit,
}
use mathlib.Core.List.{append_assoc, append-nil}
use agnost_os.Input.Ring.{RingBuffer, rb_size}
use agnost_os.Input.Packet.{PacketState, MouseEvent, Motion, event_of, poll_byte}
use agnost_os.Input.Stream.{poll_all, packets_of, poll_all-packets_of}

-- The first entries of a list.
unfoldable pub take : List ℕ → ℕ → List ℕ
take [] n = []
take (x ∷ xs) zero = []
take (x ∷ xs) (suc n) = x ∷ take xs n

take-zero : (bs : List ℕ) → take bs 0 ≡ []
unfolding take
take-zero [] = refl
take-zero (b ∷ bs) = refl

first-of :
    (e : Option MouseEvent) (r : List MouseEvent × PacketState)
    → elim e as (λ _. List MouseEvent) [ none ↦ r.0 | some event ↦ event ∷ r.0 ]
      ≡ (elim e as (λ _. List MouseEvent × PacketState) [
        | none ↦ (r.0, r.1)
        | some event ↦ (event ∷ r.0, r.1)
      ]).0
first-of none r = refl
first-of (some event) r = refl

module _ (rb : RingBuffer) where
  -- The queue, none until `init_mouse`, and `MOUSE_DROPPED`.
  pub record InputQueue : Type 0 where
    pub queue : Option rb.Queue
    pub dropped : ℕ

  unfoldable pub init_queue : InputQueue → InputQueue
  init_queue s = record s { queue = some rb.empty }

  -- `push_mouse_byte` and `push_keyboard_scancode`.
  unfoldable pub push_byte : InputQueue → ℕ → InputQueue
  push_byte s code = elim s.queue [
    | none ↦ s
    | some q ↦
        let (pushed, q') = rb.try_push q code in
        record { queue = some q'; dropped = if pushed then s.dropped else (s.dropped + 1) % 2 ^ 64 }
  ]

  -- `pop_mouse_byte` and `pop_keyboard_scancode`.
  unfoldable pub pop_byte : InputQueue → Option ℕ × InputQueue
  pop_byte s = elim s.queue [
    | none ↦ (none, s)
    | some q ↦ let (b, q') = rb.try_pop q in (b, record s { queue = some q' })
  ]

  unfoldable pub queue_is_empty : InputQueue → Bool
  queue_is_empty s = elim s.queue [ none ↦ true | some q ↦ rb.is_empty q ]

  -- `poll` of src/mouse/mod.rs.
  unfoldable pub mouse_poll :
      InputQueue × PacketState → Option MouseEvent × (InputQueue × PacketState)
  mouse_poll (s, packet) =
      let (b, s') = pop_byte s in
      elim b [
        | none ↦ (none, (s', packet))
        | some byte ↦ let (e, packet') = poll_byte packet byte in (e, (s', packet'))
      ]

  -- The interrupts of a list of bytes.
  unfoldable pub push_all : InputQueue → List ℕ → InputQueue
  push_all s [] = s
  push_all s (b ∷ bs) = push_all (push_byte s b) bs

  push_byte-room :
      (q : rb.Queue) (d code : ℕ)
      → length (rb.contents q) < rb_size
      → (q' : rb.Queue) × (push_byte (record { queue = some q; dropped = d }) code
          ≡ record { queue = some q'; dropped = d })
        × (rb.contents q' ≡ rb.contents q ++ code ∷ [])
  unfolding push_byte
  push_byte-room q d code h =
      let (e, c) = rb.push-room q code h in ((rb.try_push q code).1, rw (push_byte, e) refl, c)

  push_byte-full :
      (q : rb.Queue) (d code : ℕ)
      → rb_size ≤ length (rb.contents q)
      → push_byte (record { queue = some q; dropped = d }) code
        ≡ record { queue = some q; dropped = (d + 1) % 2 ^ 64 }
  unfolding push_byte
  push_byte-full q d code h = let e = rb.push-full q code h in rw (push_byte, e) refl

  -- The number of a list of bytes that a queue has no room for.
  abbrev lost : rb.Queue → List ℕ → ℕ
  lost q bs = length bs - (rb_size - length (rb.contents q))

  -- After any number of interrupts the queue holds what it held before and, in order, as many of the
  -- new bytes as there was room for; each of the others is counted as dropped, modulo 2^64.
  pub push_all_lem :
      (q : rb.Queue) (dropped : ℕ) (bs : List ℕ)
      → length (rb.contents q) ≤ rb_size
      → dropped < 2 ^ 64
      → (q' : rb.Queue) × (push_all (record { queue = some q; dropped = dropped }) bs
          ≡ record { queue = some q'; dropped = (dropped + lost q bs) % 2 ^ 64 })
        × (rb.contents q' ≡ rb.contents q ++ take bs (rb_size - length (rb.contents q)))
  unfolding push_all take
  push_all_lem q d [] h k =
      let e : (d + lost q []) % 2 ^ 64 ≡ d = omega arith in
      (q, rw e refl, sym (append-nil (rb.contents q)))
  push_all_lem q d (b ∷ bs) h k = elim (Bool-cases (ltb (length (rb.contents q)) rb_size)) [
    | inl room ↦
        let (q1, e1, c1) = push_byte-room q d b (ground arith) in
        let n1 : length (rb.contents q1) ≡ suc (length (rb.contents q)) =
          omega (arith, ap length c1, length-append (rb.contents q) (b ∷ [])) in
        let (q2, e2, c2) = push_all_lem q1 d bs (ground arith) k in
        let l : lost q1 bs ≡ lost q (b ∷ bs) = ground arith in
        let t : rb_size - length (rb.contents q) ≡ suc (rb_size - length (rb.contents q1)) =
          ground arith in
        (
          q2,
          rw (e1, ← l) e2,
          rw t (
              cc (
                append_assoc (rb.contents q) (b ∷ [])
                  (take bs (rb_size - length (rb.contents q1))))),
        )
    | inr full ↦
        let e1 = push_byte-full q d b (ground arith) in
        let (q2, e2, c2) = push_all_lem q ((d + 1) % 2 ^ 64) bs h (omega arith) in
        let z : rb_size - length (rb.contents q) ≡ 0 = ground arith in
        let l : ((d + 1) % 2 ^ 64 + lost q bs) % 2 ^ 64 ≡ (d + lost q (b ∷ bs)) % 2 ^ 64 =
          omega (arith, z) in
        (q2, rw (e1, ← l) e2, rw z (rw z at c2 ∙ ap (λ ys. rb.contents q ++ ys) (take-zero bs)))
  ]

  -- So many calls of `poll` of src/mouse/mod.rs, and the events that they return.
  unfoldable pub mouse_polls : ℕ → InputQueue × PacketState → List MouseEvent
  mouse_polls zero s = []
  mouse_polls (suc n) s =
      let (e, s') = mouse_poll s in
      let es = mouse_polls n s' in elim e [ none ↦ es | some event ↦ event ∷ es ]

  mouse_poll-some :
      (q : rb.Queue) (d b : ℕ) (bs : List ℕ) (p : PacketState)
      → rb.contents q ≡ b ∷ bs
      → (q' : rb.Queue) × (mouse_poll (record { queue = some q; dropped = d }, p)
          ≡ ((poll_byte p b).0, (record { queue = some q'; dropped = d }, (poll_byte p b).1)))
        × (rb.contents q' ≡ bs)
  unfolding mouse_poll pop_byte
  mouse_poll-some q d b bs p h =
      let (e, c) = rb.pop-some q b bs h in ((rb.try_pop q).1, rw (mouse_poll, pop_byte, e) refl, c)

  -- The events of a poll and of those after it.
  abbrev collect : ℕ → Option MouseEvent × (InputQueue × PacketState) → List MouseEvent
  collect n r = elim r.0 [ none ↦ mouse_polls n r.1 | some event ↦ event ∷ mouse_polls n r.1 ]

  mouse_polls-suc :
      (n : ℕ) (s : InputQueue × PacketState) → mouse_polls (suc n) s ≡ collect n (mouse_poll s)
  unfolding mouse_polls
  mouse_polls-suc n s = refl

  mouse_polls_lem :
      (bs : List ℕ) (q : rb.Queue) (d : ℕ) (p : PacketState)
      → rb.contents q ≡ bs
      → mouse_polls (length bs) (record { queue = some q; dropped = d }, p) ≡ (poll_all p bs).0
  unfolding mouse_polls poll_all
  mouse_polls_lem [] q d p h = refl
  mouse_polls_lem (b ∷ bs) q d p h =
      let (q', e, c) = mouse_poll-some q d b bs p h in
      let k = mouse_polls_lem bs q' d ((poll_byte p b).1) c in
      mouse_polls-suc (length bs) _
      ∙ (ap (collect (length bs)) e
          ∙ (ap
                (λ es. elim (poll_byte p b).0 as (λ _. List MouseEvent) [
                  | none ↦ es
                  | some event ↦ event ∷ es
                ])
                k
              ∙ first-of (poll_byte p b).0 (poll_all (poll_byte p b).1 bs)))

  take-all : (bs : List ℕ) (n : ℕ) → length bs ≤ n → take bs n ≡ bs
  unfolding take
  take-all [] n h = refl
  take-all (b ∷ bs) zero h = ground arith
  take-all (b ∷ bs) (suc n) h = ap (λ ys. b ∷ ys) (take-all bs n (omega arith))

  -- From an empty queue and the start of a packet: if the bytes that the mouse has sent fit the
  -- queue, first some that cannot begin a packet (bit 3 is clear) and then those of a list of
  -- packets, one call of `poll` for each byte gives exactly the events of these packets, in order,
  -- and no byte is dropped.
  pub mouse_polls-push_all :
      (junk : List ℕ) (vs : List Motion) (a b c : ℕ)
      → All (λ byte. bit byte 3 ≡ false) junk
      → length (junk ++ packets_of vs) ≤ rb_size
      → (let start : InputQueue = record { queue = some rb.empty; dropped = 0 } in
          let packet : PacketState = record { bytes = a ∷ b ∷ c ∷ []; index = 0 } in
          let bytes = junk ++ packets_of vs in
          (mouse_polls (length bytes) (push_all start bytes, packet) ≡ map event_of vs)
          × ((push_all start bytes).dropped ≡ 0))
  mouse_polls-push_all junk vs a b c j fits =
      let bytes = junk ++ packets_of vs in
      let packet : PacketState = record { bytes = a ∷ b ∷ c ∷ []; index = 0 } in
      let z : length (rb.contents rb.empty) ≡ 0 = ap length rb.contents-empty in
      let (q, e, k) = push_all_lem rb.empty 0 bytes (omega (arith, z)) (omega arith) in
      let l : (0 + lost rb.empty bytes) % 2 ^ 64 ≡ 0 = omega (arith, z, fits) in
      let m : rb.contents q ≡ bytes =
        k
        ∙ (ap (λ ys. ys ++ take bytes (rb_size - length (rb.contents rb.empty))) rb.contents-empty
            ∙ take-all bytes _ (omega (arith, z, fits))) in
      (
        rw e (mouse_polls_lem bytes q _ packet m ∙ poll_all-packets_of junk vs a b c j),
        ap (λ s. s.dropped) e ∙ l,
      )
