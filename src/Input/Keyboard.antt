-- ===== src/Input/Keyboard.antt =====
-- src/keyboard/mod.rs: from scancodes to the keys that the shell understands.
-- The scancode decoder and the layout are those of the `pc-keyboard` crate, parameters here.
pub mod Keys
use agnost_os.Base.{
  ℕ, ◌≡◌, Bool, true, false, Option, none, some, List, [], ◌∷◌, if◌then◌else◌, Result, ok, err,
  arith, refl, ◌≢◌, All, ◌∷◌,
}

-- The crate's key codes that `poll` tells apart; `other` is any further one.
pub data KeyCode : Type 0 where
  l_control r_control arrow_left arrow_right arrow_up arrow_down tab c l oem_plus oem_minus :
      KeyCode
  other : ℕ → KeyCode

pub data KeyState : Type 0 where
  up down single_shot : KeyState

pub record KeyEvent : Type 0 where
  pub code : KeyCode
  pub state : KeyState

pub data DecodedKey : Type 0 where
  unicode : ℕ → DecodedKey
  raw_key : KeyCode → DecodedKey

-- `PS2Keyboard`: `add_byte` fails, completes no key, or completes one.
pub record Ps2Keyboard : Type 1 where
  pub State : Type 0
  pub add_byte : State → ℕ → Result (Unit {0}) (Option KeyEvent) × State
  pub process_keyevent : State → KeyEvent → Option DecodedKey × State

pub data KeyboardEvent : Type 0 where
  char : ℕ → KeyboardEvent
  ctrl_c zoom_in zoom_out arrow_up arrow_down arrow_left arrow_right ctrl_l tab : KeyboardEvent

abbrev pub is_down : KeyState → Bool
is_down KeyState.down = true
is_down _ = false

abbrev pub is_control : KeyCode → Bool
is_control KeyCode.l_control = true
is_control KeyCode.r_control = true
is_control _ = false

-- The keys that have their event whatever else is held.
abbrev pub direct_event : KeyCode → Option KeyboardEvent
direct_event KeyCode.arrow_left = some KeyboardEvent.arrow_left
direct_event KeyCode.arrow_right = some KeyboardEvent.arrow_right
direct_event KeyCode.arrow_up = some KeyboardEvent.arrow_up
direct_event KeyCode.arrow_down = some KeyboardEvent.arrow_down
direct_event KeyCode.tab = some KeyboardEvent.tab
direct_event _ = none

-- The keys that have an event while Ctrl is held.
abbrev pub control_event : KeyCode → Option KeyboardEvent
control_event KeyCode.c = some KeyboardEvent.ctrl_c
control_event KeyCode.l = some KeyboardEvent.ctrl_l
control_event KeyCode.oem_plus = some KeyboardEvent.zoom_in
control_event KeyCode.oem_minus = some KeyboardEvent.zoom_out
control_event _ = none

abbrev pub when_down : KeyState → Option KeyboardEvent → Option KeyboardEvent
when_down state event = if is_down state then event else none

module _ (kb : Ps2Keyboard) where
  -- `KEYBOARD` and `CTRL_HELD`.
  pub record Keyboard : Type 0 where
    pub decoder : kb.State
    pub ctrl_held : Bool

  -- The last step of `poll`: the layout makes a character of the key, or not.
  unfoldable pub decode_key : Keyboard → KeyEvent → Option KeyboardEvent × Keyboard
  decode_key s event =
      let (key, decoder) = kb.process_keyevent s.decoder event in
      let s' : Keyboard = record { decoder = decoder; ctrl_held = s.ctrl_held } in
      elim key [
        | some (unicode ch) ↦ (some (KeyboardEvent.char ch), s')
        | some (raw_key code) ↦ (none, s')
        | none ↦ (none, s')
      ]

  -- `poll` from a key event on.
  unfoldable pub key_poll : Keyboard → KeyEvent → Option KeyboardEvent × Keyboard
  key_poll s event =
      if is_control event.code
      then (none, record { decoder = s.decoder; ctrl_held = is_down event.state })
      else elim (when_down event.state (direct_event event.code)) [
        | some e ↦ (some e, s)
        | none ↦
            elim (if s.ctrl_held then when_down event.state (control_event event.code) else none) [
              | some e ↦ (some e, s)
              | none ↦ decode_key s event
            ]
      ]

  -- `poll`, after a scancode was popped from the queue.
  unfoldable pub scancode_poll : Keyboard → ℕ → Option KeyboardEvent × Keyboard
  scancode_poll s scancode =
      let (added, decoder) = kb.add_byte s.decoder scancode in
      let s' : Keyboard = record { decoder = decoder; ctrl_held = s.ctrl_held } in
      elim added [ err e ↦ (none, s') | ok none ↦ (none, s') | ok (some event) ↦ key_poll s' event ]

  -- A call of `poll` for each scancode, with the events it returns.
  unfoldable pub scancodes_poll : Keyboard → List ℕ → List (Option KeyboardEvent) × Keyboard
  scancodes_poll s [] = ([], s)
  scancodes_poll s (b ∷ bs) =
      let (e, s') = scancode_poll s b in let (es, s'') = scancodes_poll s' bs in (e ∷ es, s'')
