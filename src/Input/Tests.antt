-- ===== src/Input/Tests.antt =====
-- Runs of the input paths, after the tests of src/mouse/mod.rs, and the theorems at them.
use agnost_os.Base.{
  ◌≢◌, All, ℕ, ◌≡◌, refl, sym, ap, ◌∙◌, Bool, true, false, Option, none, some, List, [], ◌∷◌, ◌++◌,
  map, arith, ltb, ◌==◌, if◌then◌else◌, ok, length,
}
use agnost_os.Base.ℤ.{pos, negsuc}
use agnost_os.Input.Ring.{RingBuffer, rb_size}
use agnost_os.Input.Packet.{PacketState, Motion, decode_packet, packet_of, event_of}
use agnost_os.Input.Stream.{packets_of}
use agnost_os.Input.Queue.{InputQueue, push_all, mouse_polls, mouse_polls-push_all}
use agnost_os.Input.Ps2.{
  ps2_command, Ports, initialize_controller, ps2_read_data, ps2_data, write_config, enable_packets,
  check_ack, ps2_write, wait_write, wait_read,
}
use agnost_os.Input.Ps2.Handshake.{IsMouseConfig, handshake, initialize_controller_lem}
use agnost_os.Input.Keyboard.{
  Ps2Keyboard, Keyboard, KeyEvent, KeyCode, KeyState, DecodedKey, key_poll,
}
use agnost_os.Input.Keyboard.Keys.{
  control_keys, direct_keys, shortcuts, press, IsTyped, key_poll_lem,
}

-- The first test of packets: left by 2, down by 3, all buttons.
run-decode :
    decode_packet (0x37 ∷ 0xfe ∷ 0xfd ∷ [])
    ≡ some (record { dx = negsuc 1; dy = pos 3; left = true; right = true; middle = true })
unfolding decode_packet
run-decode = refl

run-overflow : decode_packet (0xc8 ∷ 0 ∷ 0 ∷ []) ≡ none
unfolding decode_packet
run-overflow = refl

abbrev motion : Motion
motion = record {
  left = true;
  right = false;
  middle = false;
  negative_x = true;
  negative_up = false;
  low_x = 254;
  low_up = 3;
}

-- A ring buffer as a list of at most 256 bytes.
abbrev push_list : List ℕ → ℕ → Bool × List ℕ
push_list q b = if ltb (length q) rb_size then (true, q ++ b ∷ []) else (false, q)

abbrev pop_list : List ℕ → Option ℕ × List ℕ
pop_list [] = (none, [])
pop_list (b ∷ bs) = (some b, bs)

abbrev empty_list : List ℕ → Bool
empty_list [] = true
empty_list (b ∷ bs) = false

abbrev list_ring : RingBuffer
list_ring = record {
  Queue = List ℕ;
  empty = [];
  try_push = push_list;
  try_pop = pop_list;
  is_empty = empty_list;
  contents = λ q. q;
  contents-empty = refl;
  push-room = λ q b h. ground arith;
  push-full = λ q b h. ground arith;
  pop-none = λ q h. ap pop_list h ∙ ap (λ z. (none, z)) (sym h);
  pop-some = λ q b bs h. (ap (λ z. (pop_list z).0) h, ap (λ z. (pop_list z).1) h);
  is_empty-none = λ q h. ap empty_list h;
  is_empty-some = λ q b bs h. ap empty_list h;
}

run-packets : length ((0x10 ∷ []) ++ packets_of (motion ∷ [])) ≡ 4
unfolding packets_of packet_of
run-packets = refl

mouse_polls-push_all_example :
    let start : InputQueue list_ring = record { queue = some []; dropped = 0 } in
    let packet : PacketState = record { bytes = 0 ∷ 0 ∷ 0 ∷ []; index = 0 } in
    let bytes = (0x10 ∷ []) ++ packets_of (motion ∷ []) in
    (mouse_polls list_ring (length bytes) (push_all list_ring start bytes, packet)
      ≡ map event_of (motion ∷ []))
    × ((push_all list_ring start bytes).dropped ≡ 0)
mouse_polls-push_all_example =
    mouse_polls-push_all list_ring (0x10 ∷ []) (motion ∷ []) 0 0 0 (refl, tt)
      (omega (arith, run-packets))

-- A controller that is always ready, with its configuration byte and then the acknowledgement.
abbrev ready_ports : Ports
ready_ports = record {
  State = List (ℕ × ℕ) × Bool;
  inb = λ (l, first) port.
      if port == ps2_data then (if first then 0x61 else 0xfa, (l, false)) else (1, (l, first));
  outb = λ (l, first) value port. (l ++ (value, port) ∷ [], first);
  log = λ s. s.0;
  log-inb = λ s port. ground arith;
  log-outb = λ s value port. refl;
}

run-controller :
    initialize_controller ready_ports ([], true) ≡ (ok tt, (handshake ready_ports 0x43, false))
unfolding initialize_controller write_config enable_packets check_ack ps2_write ps2_read_data
    wait_write wait_read
run-controller = refl

initialize_controller_lem_example :
    (config written : ℕ) × (asked answered before : List (ℕ × ℕ) × Bool) × (asked.0
      ≡ ([] ++ (0xa8, ps2_command) ∷ []) ++ (0x20, ps2_command) ∷ [])
    × (ps2_read_data ready_ports asked ≡ (ok config, answered))
    × IsMouseConfig config written
    × (handshake ready_ports 0x43 ≡ [] ++ handshake ready_ports written)
    × (ps2_read_data ready_ports before ≡ (ok 0xfa, (handshake ready_ports 0x43, false)))
initialize_controller_lem_example = initialize_controller_lem ready_ports ([], true) run-controller

-- A decoder that knows one key.
abbrev one_key : Ps2Keyboard
one_key = record {
  State = Unit {0};
  add_byte = λ s b. (ok (some (record { code = KeyCode.c; state = KeyState.down })), s);
  process_keyevent = λ s e. (some (DecodedKey.unicode 99), s);
}

abbrev held : Keyboard one_key
held = record { decoder = tt; ctrl_held = true }

abbrev letter_a : KeyEvent
letter_a = record { code = KeyCode.other 30; state = KeyState.down }

key_poll_lem_example :
    All
      (λ code.
        (state : KeyState)
        → (key_poll one_key held (record { code = code; state = state })).0 ≡ none)
      control_keys
    × All
        (λ code.
          ((key_poll one_key held (press one_key code)).1
            ≡ record { decoder = held.decoder; ctrl_held = true })
          × ((key_poll one_key held (record { code = code; state = KeyState.up })).1
              ≡ record { decoder = held.decoder; ctrl_held = false }))
        control_keys
    × All
        (λ (code, answer). key_poll one_key held (press one_key code) ≡ (some answer, held))
        direct_keys
    × (held.ctrl_held ≡ true
        → All
            (λ (code, answer). key_poll one_key held (press one_key code) ≡ (some answer, held))
            shortcuts)
    × (All (λ code. letter_a.code ≢ code) control_keys
        → (letter_a.state ≡ KeyState.down → All (λ k. letter_a.code ≢ k.0) direct_keys)
        → (letter_a.state ≡ KeyState.down
            → held.ctrl_held ≡ true
            → All (λ k. letter_a.code ≢ k.0) shortcuts)
        → IsTyped one_key held letter_a)
key_poll_lem_example = key_poll_lem one_key held letter_a
