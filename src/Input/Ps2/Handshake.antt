-- ===== src/Input/Ps2/Handshake.antt =====
-- src/mouse/mod.rs: what the mouse's initialization writes to the controller.
use agnost_os.Base.{
  ℕ, zero, suc, ◌≡◌, refl, sym, ap, ◌∙◌, true, false, arith, List, [], ◌∷◌, ◌++◌, ◌==◌, Bool-cases,
  inl, inr, Result, ok, err, err-ne-ok, bit, set_bit, clear_bit,
}
use mathlib.Core.List.{append_assoc}
use agnost_os.Input.Ps2.{
  ps2_data, ps2_status, ps2_command, ready_poll_limit, Ps2Error, Ports, Action, and_then,
  wait_write, wait_read, ps2_write, ps2_read_data, mouse_config, check_ack, enable_packets,
  write_config, initialize_controller,
}

-- A configuration byte with bit 1 set, bit 5 clear and the others as in the byte it was made from.
pub record IsMouseConfig (config written : ℕ) : Type 0 where
  pub interrupt : bit written 1 ≡ true
  pub clock : bit written 5 ≡ false
  pub bit0 : bit written 0 ≡ bit config 0
  pub bit2 : bit written 2 ≡ bit config 2
  pub bit3 : bit written 3 ≡ bit config 3
  pub bit4 : bit written 4 ≡ bit config 4
  pub bit6 : bit written 6 ≡ bit config 6
  pub bit7 : bit written 7 ≡ bit config 7

mouse_config_lem : (config : ℕ) → IsMouseConfig config (clear_bit (set_bit config 1) 5)
mouse_config_lem config = record {
  interrupt = ground arith;
  clock = ground arith;
  bit0 = ground arith;
  bit2 = ground arith;
  bit3 = ground arith;
  bit4 = ground arith;
  bit6 = ground arith;
  bit7 = ground arith;
}

module _ (io : Ports) where
  outcome-ok :
      {A B : Type 0} (p : Result Ps2Error A × io.State) (f : A → Action io B) {b : B}
      {s' : io.State}
      → (elim p.0 as (λ _. Result Ps2Error B × io.State) [ err e ↦ (err e, p.1) | ok a ↦ f a p.1 ])
        ≡ (ok b, s')
      → (a : A) × (t : io.State) × (p ≡ (ok a, t)) × (f a t ≡ (ok b, s'))
  outcome-ok (ok a, t) f h = (a, t, refl, h)
  outcome-ok (err e, t) f h = absurd (err-ne-ok (ap (λ q. q.0) h))

  and_then-ok :
      {A B : Type 0} (m : Action io A) (f : A → Action io B) (s : io.State) {b : B} {s' : io.State}
      → and_then io m f s ≡ (ok b, s')
      → (a : A) × (t : io.State) × (m s ≡ (ok a, t)) × (f a t ≡ (ok b, s'))
  and_then-ok m f s h = outcome-ok (m s) f h

  wait_write-log : (n : ℕ) (s : io.State) → io.log (wait_write io n s).1 ≡ io.log s
  unfolding wait_write
  wait_write-log zero s = refl
  wait_write-log (suc n) s = elim (Bool-cases (bit (io.inb s ps2_status).0 1)) [
    | inl busy ↦
        rw (wait_write, busy) (wait_write-log n (io.inb s ps2_status).1 ∙ io.log-inb s ps2_status)
    | inr ready ↦ rw (wait_write, ready) (io.log-inb s ps2_status)
  ]

  wait_read-log : (n : ℕ) (s : io.State) → io.log (wait_read io n s).1 ≡ io.log s
  unfolding wait_read
  wait_read-log zero s = refl
  wait_read-log (suc n) s = elim (Bool-cases (bit (io.inb s ps2_status).0 0)) [
    | inl ready ↦ rw (wait_read, ready) (io.log-inb s ps2_status)
    | inr nothing ↦
        rw (wait_read, nothing) (wait_read-log n (io.inb s ps2_status).1 ∙ io.log-inb s ps2_status)
  ]

  ps2_write-log :
      (value port : ℕ) (s : io.State) {s' : io.State}
      → ps2_write io value port s ≡ (ok tt, s')
      → io.log s' ≡ io.log s ++ (value, port) ∷ []
  unfolding ps2_write
  ps2_write-log value port s {s'} h =
      let (_, t, e, k) =
        and_then-ok (wait_write io ready_poll_limit) (λ _ z. (ok tt, io.outb z value port)) s h in
      let l : io.log t ≡ io.log s =
        ap (λ q. io.log q.1) (sym e) ∙ wait_write-log ready_poll_limit s in
      ap (λ q. io.log q.1) (sym k)
      ∙ (io.log-outb t value port ∙ ap (λ z. z ++ (value, port) ∷ []) l)

  ps2_read_data-log :
      (s : io.State) {b : ℕ} {s' : io.State}
      → ps2_read_data io s ≡ (ok b, s')
      → io.log s' ≡ io.log s
  unfolding ps2_read_data
  ps2_read_data-log s {b} {s'} h =
      let (_, t, e, k) =
        and_then-ok (wait_read io ready_poll_limit)
          (λ _ z. (ok (io.inb z ps2_data).0, (io.inb z ps2_data).1)) s h in
      let l : io.log t ≡ io.log s =
        ap (λ q. io.log q.1) (sym e) ∙ wait_read-log ready_poll_limit s in
      ap (λ q. io.log q.1) (sym k) ∙ (io.log-inb t ps2_data ∙ l)

  check_ack-ok :
      (ack : ℕ) (s : io.State) {s' : io.State}
      → check_ack io ack s ≡ (ok tt, s')
      → (ack ≡ 0xfa) × (s ≡ s')
  unfolding check_ack
  check_ack-ok ack s h = elim (Bool-cases (ack == 0xfa)) [
    | inl yes_ack ↦ let h' = rw (check_ack, yes_ack) at h in (ground arith, ap (λ q. q.1) h')
    | inr other_byte ↦
        let h' = rw (check_ack, other_byte) at h in absurd (err-ne-ok (ap (λ q. q.0) h'))
  ]

  -- What a mouse that was turned on has been sent: six bytes in this order and to these ports.
  abbrev pub handshake : ℕ → List (ℕ × ℕ)
  handshake written =
      (0xa8, ps2_command)
      ∷ (0x20, ps2_command)
      ∷ (0x60, ps2_command)
      ∷ (written, ps2_data)
      ∷ (0xd4, ps2_command)
      ∷ (0xf4, ps2_data)
      ∷ []

  write-then :
      (value port : ℕ) (m : Action io (Unit {0})) (s : io.State) {s' : io.State}
      → and_then io (ps2_write io value port) (λ _. m) s ≡ (ok tt, s')
      → (t : io.State) × (io.log t ≡ io.log s ++ (value, port) ∷ []) × (m t ≡ (ok tt, s'))
  write-then value port m s h =
      let (_, t, e, k) = and_then-ok (ps2_write io value port) (λ _. m) s h in
      (t, ps2_write-log value port s e, k)

  enable_packets-ok :
      (s : io.State) {s' : io.State}
      → enable_packets io s ≡ (ok tt, s')
      → (t : io.State) × (io.log s' ≡ io.log s ++ (0xd4, ps2_command) ∷ (0xf4, ps2_data) ∷ [])
        × (ps2_read_data io t ≡ (ok 0xfa, s'))
  unfolding enable_packets
  enable_packets-ok s {s'} h =
      let (s1, l1, h1) =
        write-then 0xd4 ps2_command
          (and_then io (ps2_write io 0xf4 ps2_data)
            (λ _. and_then io (ps2_read_data io) (check_ack io)))
          s h in
      let (s2, l2, h2) =
        write-then 0xf4 ps2_data (and_then io (ps2_read_data io) (check_ack io)) s1 h1 in
      let (ack, s3, e3, h3) = and_then-ok (ps2_read_data io) (check_ack io) s2 h2 in
      let (a, b) = check_ack-ok ack s3 h3 in
      let r : ps2_read_data io s2 ≡ (ok 0xfa, s') =
        e3 ∙ (ap (λ z. (ok z, s3)) a ∙ ap (λ z. (ok 0xfa, z)) b) in
      (
        s2,
        ps2_read_data-log s2 r
            ∙ (l2
                ∙ (ap (λ z. z ++ (0xf4, ps2_data) ∷ []) l1
                    ∙ append_assoc (io.log s) ((0xd4, ps2_command) ∷ []) ((0xf4, ps2_data) ∷ []))),
        r,
      )

  write_config-ok :
      (config : ℕ) (s : io.State) {s' : io.State}
      → write_config io config s ≡ (ok tt, s')
      → (t : io.State) × (io.log s'
          ≡ io.log s
            ++ (0x60, ps2_command)
              ∷ (mouse_config io config, ps2_data)
              ∷ (0xd4, ps2_command)
              ∷ (0xf4, ps2_data)
              ∷ [])
        × (ps2_read_data io t ≡ (ok 0xfa, s'))
  unfolding write_config
  write_config-ok config s {s'} h =
      let (s1, l1, h1) =
        write-then 0x60 ps2_command
          (and_then io (ps2_write io (mouse_config io config) ps2_data) (λ _. enable_packets io)) s
          h in
      let (s2, l2, h2) = write-then (mouse_config io config) ps2_data (enable_packets io) s1 h1 in
      let (t, l3, k) = enable_packets-ok s2 h2 in
      let two = (0xd4, ps2_command) ∷ (0xf4, ps2_data) ∷ [] in
      (
        t,
        l3
            ∙ (ap (λ z. z ++ two) (l2 ∙ ap (λ z. z ++ (mouse_config io config, ps2_data) ∷ []) l1)
                ∙ (append_assoc (io.log s ++ (0x60, ps2_command) ∷ [])
                      ((mouse_config io config, ps2_data) ∷ []) two
                    ∙ append_assoc (io.log s) ((0x60, ps2_command) ∷ [])
                        ((mouse_config io config, ps2_data) ∷ two))),
        k,
      )

  handshake-append :
      (l : List (ℕ × ℕ)) (config : ℕ)
      → ((l ++ (0xa8, ps2_command) ∷ []) ++ (0x20, ps2_command) ∷ [])
          ++ (0x60, ps2_command)
            ∷ (mouse_config io config, ps2_data)
            ∷ (0xd4, ps2_command)
            ∷ (0xf4, ps2_data)
            ∷ []
        ≡ l ++ handshake (mouse_config io config)
  handshake-append l config =
      append_assoc (l ++ (0xa8, ps2_command) ∷ []) ((0x20, ps2_command) ∷ []) _
      ∙ append_assoc l ((0xa8, ps2_command) ∷ []) _

  -- Whatever the controller does, an initialization that succeeds has sent it exactly the six bytes
  -- of the handshake, in order. The fourth is made from the byte that was read from the controller
  -- right after the first two had been sent: its bit 1 is set, its bit 5 clear, and its other bits are
  -- those of the byte read. The last byte read was the mouse's acknowledgement.
  pub initialize_controller_lem :
      (s : io.State) {s' : io.State}
      → initialize_controller io s ≡ (ok tt, s')
      → (config written : ℕ) × (asked answered before : io.State) × (io.log asked
          ≡ (io.log s ++ (0xa8, ps2_command) ∷ []) ++ (0x20, ps2_command) ∷ [])
        × (ps2_read_data io asked ≡ (ok config, answered))
        × IsMouseConfig config written
        × (io.log s' ≡ io.log s ++ handshake written)
        × (ps2_read_data io before ≡ (ok 0xfa, s'))
  unfolding initialize_controller
  initialize_controller_lem s {s'} h =
      let (s1, l1, h1) =
        write-then 0xa8 ps2_command
          (and_then io (ps2_write io 0x20 ps2_command)
            (λ _. and_then io (ps2_read_data io) (write_config io)))
          s h in
      let (s2, l2, h2) =
        write-then 0x20 ps2_command (and_then io (ps2_read_data io) (write_config io)) s1 h1 in
      let (config, s3, e3, h3) = and_then-ok (ps2_read_data io) (write_config io) s2 h2 in
      let (before, l4, k) = write_config-ok config s3 h3 in
      let l3 = ps2_read_data-log s2 e3 in
      (
        config,
        mouse_config io config,
        s2,
        s3,
        before,
        l2 ∙ ap (λ z. z ++ (0x20, ps2_command) ∷ []) l1,
        e3,
        mouse_config_lem config,
        l4
            ∙ (ap
                  (λ z.
                    z
                    ++ (0x60, ps2_command)
                      ∷ (mouse_config io config, ps2_data)
                      ∷ (0xd4, ps2_command)
                      ∷ (0xf4, ps2_data)
                      ∷ [])
                  (l3 ∙ (l2 ∙ ap (λ z. z ++ (0x20, ps2_command) ∷ []) l1))
                ∙ handshake-append (io.log s) config),
        k,
      )
