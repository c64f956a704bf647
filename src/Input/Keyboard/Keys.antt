-- ===== src/Input/Keyboard/Keys.antt =====
-- src/keyboard/mod.rs: `poll`, what each key gives.
use agnost_os.Base.{
  ℕ, ◌≡◌, true, false, Option, none, some, List, [], ◌∷◌, arith, refl, ◌≢◌, All, ◌∷◌,
}
use agnost_os.Input.Keyboard.{
  KeyboardEvent, KeyCode, KeyState, unicode, raw_key, KeyEvent, Ps2Keyboard, Keyboard, is_control,
  direct_event, control_event, when_down, decode_key, key_poll,
}

-- The keys that are told apart, each with the event that it gives when it is pressed.
abbrev pub control_keys : List KeyCode
control_keys = KeyCode.l_control ∷ KeyCode.r_control ∷ []

abbrev pub direct_keys : List (KeyCode × KeyboardEvent)
direct_keys =
    (KeyCode.arrow_left, KeyboardEvent.arrow_left)
    ∷ (KeyCode.arrow_right, KeyboardEvent.arrow_right)
    ∷ (KeyCode.arrow_up, KeyboardEvent.arrow_up)
    ∷ (KeyCode.arrow_down, KeyboardEvent.arrow_down)
    ∷ (KeyCode.tab, KeyboardEvent.tab)
    ∷ []

-- Those that give their event while Ctrl is held.
abbrev pub shortcuts : List (KeyCode × KeyboardEvent)
shortcuts =
    (KeyCode.c, KeyboardEvent.ctrl_c)
    ∷ (KeyCode.l, KeyboardEvent.ctrl_l)
    ∷ (KeyCode.oem_plus, KeyboardEvent.zoom_in)
    ∷ (KeyCode.oem_minus, KeyboardEvent.zoom_out)
    ∷ []

is_control-false : (code : KeyCode) → All (λ k. code ≢ k) control_keys → is_control code ≡ false
is_control-false KeyCode.l_control h = absurd (h.0 refl)
is_control-false KeyCode.r_control h = absurd (h.1.0 refl)
is_control-false KeyCode.arrow_left h = refl
is_control-false KeyCode.arrow_right h = refl
is_control-false KeyCode.arrow_up h = refl
is_control-false KeyCode.arrow_down h = refl
is_control-false KeyCode.tab h = refl
is_control-false KeyCode.c h = refl
is_control-false KeyCode.l h = refl
is_control-false KeyCode.oem_plus h = refl
is_control-false KeyCode.oem_minus h = refl
is_control-false (KeyCode.other n) h = refl

direct_event-none : (code : KeyCode) → All (λ k. code ≢ k.0) direct_keys → direct_event code ≡ none
direct_event-none KeyCode.l_control h = refl
direct_event-none KeyCode.r_control h = refl
direct_event-none KeyCode.arrow_left h = absurd (h.0 refl)
direct_event-none KeyCode.arrow_right h = absurd (h.1.0 refl)
direct_event-none KeyCode.arrow_up h = absurd (h.1.1.0 refl)
direct_event-none KeyCode.arrow_down h = absurd (h.1.1.1.0 refl)
direct_event-none KeyCode.tab h = absurd (h.1.1.1.1.0 refl)
direct_event-none KeyCode.c h = refl
direct_event-none KeyCode.l h = refl
direct_event-none KeyCode.oem_plus h = refl
direct_event-none KeyCode.oem_minus h = refl
direct_event-none (KeyCode.other n) h = refl

control_event-none : (code : KeyCode) → All (λ k. code ≢ k.0) shortcuts → control_event code ≡ none
control_event-none KeyCode.l_control h = refl
control_event-none KeyCode.r_control h = refl
control_event-none KeyCode.arrow_left h = refl
control_event-none KeyCode.arrow_right h = refl
control_event-none KeyCode.arrow_up h = refl
control_event-none KeyCode.arrow_down h = refl
control_event-none KeyCode.tab h = refl
control_event-none KeyCode.c h = absurd (h.0 refl)
control_event-none KeyCode.l h = absurd (h.1.0 refl)
control_event-none KeyCode.oem_plus h = absurd (h.1.1.0 refl)
control_event-none KeyCode.oem_minus h = absurd (h.1.1.1.0 refl)
control_event-none (KeyCode.other n) h = refl

when_down-none :
    (state : KeyState) (answer : Option KeyboardEvent)
    → (state ≡ KeyState.down → answer ≡ none)
    → when_down state answer ≡ none
when_down-none KeyState.down answer h = h refl
when_down-none KeyState.up answer h = refl
when_down-none KeyState.single_shot answer h = refl

module _ (kb : Ps2Keyboard) where
  abbrev pub press : KeyCode → KeyEvent
  press code = record { code = code; state = KeyState.down }

  -- A key event that goes to the layout: a character is the event, anything else is dropped.
  pub record IsTyped (s : Keyboard kb) (event : KeyEvent) : Type 0 where
    pub character :
        (ch : ℕ)
        → (kb.process_keyevent s.decoder event).0 ≡ some (unicode ch)
        → (key_poll kb s event).0 ≡ some (KeyboardEvent.char ch)
    pub raw :
        (code : KeyCode)
        → (kb.process_keyevent s.decoder event).0 ≡ some (raw_key code)
        → (key_poll kb s event).0 ≡ none
    pub nothing : (kb.process_keyevent s.decoder event).0 ≡ none → (key_poll kb s event).0 ≡ none
    pub after :
        (key_poll kb s event).1
        ≡ record { decoder = (kb.process_keyevent s.decoder event).1; ctrl_held = s.ctrl_held }

  key_poll-decode_key :
      (s : Keyboard kb) (event : KeyEvent)
      → is_control event.code ≡ false
      → when_down event.state (direct_event event.code) ≡ none
      → (s.ctrl_held ≡ true → when_down event.state (control_event event.code) ≡ none)
      → key_poll kb s event ≡ decode_key kb s event
  unfolding key_poll
  key_poll-decode_key s event not_control direct shortcut = ground arith

  decode_key-IsTyped :
      (s : Keyboard kb) (event : KeyEvent)
      → key_poll kb s event ≡ decode_key kb s event
      → IsTyped s event
  unfolding decode_key
  decode_key-IsTyped s event same = record {
    character = λ ch e. ground arith;
    raw = λ code e. ground arith;
    nothing = λ e. ground arith;
    after = ground arith;
  }

  key_poll-IsTyped :
      (s : Keyboard kb) (event : KeyEvent)
      → All (λ code. event.code ≢ code) control_keys
      → (event.state ≡ KeyState.down → All (λ k. event.code ≢ k.0) direct_keys)
      → (event.state ≡ KeyState.down → s.ctrl_held ≡ true → All (λ k. event.code ≢ k.0) shortcuts)
      → IsTyped s event
  key_poll-IsTyped s event not_control direct shortcut =
      let free : (held : s.ctrl_held ≡ true)
          → when_down event.state (control_event event.code) ≡ none =
        λ held.
          when_down-none event.state (control_event event.code)
            (λ down. control_event-none event.code (shortcut down held)) in
      decode_key-IsTyped s event (
        key_poll-decode_key s event (is_control-false event.code not_control)
          (when_down-none event.state (direct_event event.code)
            (λ down. direct_event-none event.code (direct down)))
          free)

  -- Pressing or releasing one of the two Ctrl keys gives no event, and Ctrl is held afterwards
  -- exactly if the key was pressed. An arrow or Tab that is pressed gives its own event, and so does C,
  -- L, plus or minus that is pressed while Ctrl is held, without the layout. Every other key event goes
  -- to the layout, and what it makes a character of gives that character; Ctrl stays as it was.
  pub key_poll_lem :
      (s : Keyboard kb) (event : KeyEvent)
      → All
          (λ code.
            (state : KeyState) → (key_poll kb s (record { code = code; state = state })).0 ≡ none)
          control_keys
        × All
            (λ code.
              ((key_poll kb s (press code)).1 ≡ record { decoder = s.decoder; ctrl_held = true })
              × ((key_poll kb s (record { code = code; state = KeyState.up })).1
                  ≡ record { decoder = s.decoder; ctrl_held = false }))
            control_keys
        × All (λ (code, answer). key_poll kb s (press code) ≡ (some answer, s)) direct_keys
        × (s.ctrl_held ≡ true
            → All (λ (code, answer). key_poll kb s (press code) ≡ (some answer, s)) shortcuts)
        × (All (λ code. event.code ≢ code) control_keys
            → (event.state ≡ KeyState.down → All (λ k. event.code ≢ k.0) direct_keys)
            → (event.state ≡ KeyState.down
                → s.ctrl_held ≡ true
                → All (λ k. event.code ≢ k.0) shortcuts)
            → IsTyped s event)
  unfolding key_poll
  key_poll_lem s event = (
    (λ state. refl, (λ state. refl, tt)),
    ((refl, refl), ((refl, refl), tt)),
    (refl, (refl, (refl, (refl, (refl, tt))))),
    λ held. (ground arith, (ground arith, (ground arith, (ground arith, tt)))),
    key_poll-IsTyped s event,
  )
