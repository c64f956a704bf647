-- ===== src/Input/Ps2.antt =====
-- src/mouse/mod.rs: the commands that turn the mouse on, sent to the PS/2 controller.
-- The controller's two operations, reading and writing an I/O port, are parameters.
pub mod Handshake
use agnost_os.Base.{
  ℕ, zero, suc, ◌<◌, ◌≡◌, refl, sym, ap, ◌∙◌, true, false, arith, List, [], ◌∷◌, ◌++◌, ◌==◌,
  if◌then◌else◌, Bool-cases, inl, inr, Result, ok, err, err-ne-ok, bit, set_bit, clear_bit,
}
use mathlib.Core.List.{append_assoc}

abbrev pub ps2_data : ℕ
ps2_data = 0x60

abbrev pub ps2_status : ℕ
ps2_status = 0x64

abbrev pub ps2_command : ℕ
ps2_command = 0x64

abbrev pub ready_poll_limit : ℕ
ready_poll_limit = 100000

pub data Ps2Error : Type 0 where
  timeout : Ps2Error
  unexpected_response : ℕ → Ps2Error

-- The ports, with a log of what was written: each write adds its value and port, a read nothing.
pub record Ports : Type 1 where
  pub State : Type 0
  pub inb : State → ℕ → ℕ × State
  pub outb : State → ℕ → ℕ → State
  pub log : State → List (ℕ × ℕ)
  pub log-inb : (s : State) (port : ℕ) → log (inb s port).1 ≡ log s
  pub log-outb :
      (s : State) (value port : ℕ) → log (outb s value port) ≡ log s ++ (value, port) ∷ []

module _ (io : Ports) where
  -- A computation on the ports that may fail.
  abbrev pub Action : Type 0 → Type 0
  Action A = io.State → Result Ps2Error A × io.State

  -- `?` and the sequence of statements.
  abbrev pub and_then : {A B : Type 0} → Action A → (A → Action B) → Action B
  and_then m f s = let (r, s') = m s in elim r [ err e ↦ (err e, s') | ok a ↦ f a s' ]

  unfoldable pub wait_write : ℕ → Action (Unit {0})
  wait_write zero s = (err timeout, s)
  wait_write (suc n) s =
      let (status, s') = io.inb s ps2_status in
      elim (bit status 1) [ false ↦ (ok tt, s') | true ↦ wait_write n s' ]

  unfoldable pub wait_read : ℕ → Action (Unit {0})
  wait_read zero s = (err timeout, s)
  wait_read (suc n) s =
      let (status, s') = io.inb s ps2_status in
      elim (bit status 0) [ true ↦ (ok tt, s') | false ↦ wait_read n s' ]

  -- `ps2_write_command` and `ps2_write_data`, by their port.
  unfoldable pub ps2_write : ℕ → ℕ → Action (Unit {0})
  ps2_write value port =
      and_then (wait_write ready_poll_limit) (λ _ s. (ok tt, io.outb s value port))

  unfoldable pub ps2_read_data : Action ℕ
  ps2_read_data =
      and_then (wait_read ready_poll_limit) (λ _ s. let (b, s') = io.inb s ps2_data in (ok b, s'))

  -- The configuration byte with IRQ12 on and the clock of the auxiliary device running.
  abbrev pub mouse_config : ℕ → ℕ
  mouse_config config = clear_bit (set_bit config 1) 5

  unfoldable pub check_ack : ℕ → Action (Unit {0})
  check_ack ack s = if ack == 0xfa then (ok tt, s) else (err (unexpected_response ack), s)

  -- The last part of `initialize_controller`: the mouse's own command and its acknowledgement.
  unfoldable pub enable_packets : Action (Unit {0})
  enable_packets =
      and_then (ps2_write 0xd4 ps2_command)
        (λ _. and_then (ps2_write 0xf4 ps2_data) (λ _. and_then ps2_read_data check_ack))

  -- The part from the configuration byte on.
  unfoldable pub write_config : ℕ → Action (Unit {0})
  write_config config =
      and_then (ps2_write 0x60 ps2_command)
        (λ _. and_then (ps2_write (mouse_config config) ps2_data) (λ _. enable_packets))

  unfoldable pub initialize_controller : Action (Unit {0})
  initialize_controller =
      and_then (ps2_write 0xa8 ps2_command)
        (λ _. and_then (ps2_write 0x20 ps2_command) (λ _. and_then ps2_read_data write_config))
