-- ===== src/Input/Packet.antt =====
-- src/mouse/mod.rs: three-byte packets of a PS/2 mouse.
use agnost_os.Base.{
  ℕ, ◌+◌, ◌<◌, ◌≡◌, refl, Bool, true, false, not, ◌&&◌, ◌||◌, Option, none, some, List, [], ◌∷◌,
  arith, ltb, ◌==◌, if◌then◌else◌, ℤ, difference, negate, bit, set, get_or,
}
use agnost_os.Base.ℤ.{pos}

-- `PacketState`: the bytes of the packet so far and how many there are.
pub record PacketState : Type 0 where
  pub bytes : List ℕ
  pub index : ℕ

-- The `PACKET_STATE` before any byte.
abbrev pub no_packet : PacketState
no_packet = record { bytes = 0 ∷ 0 ∷ 0 ∷ []; index = 0 }

pub record MouseEvent : Type 0 where
  pub dx : ℤ
  pub dy : ℤ
  pub left : Bool
  pub right : Bool
  pub middle : Bool

unfoldable pub decode_packet : List ℕ → Option MouseEvent
decode_packet packet =
    let flags = get_or packet 0 0 in
    if bit flags 6 || bit flags 7
    then none
    else some (record {
      dx = if bit flags 4 then difference (get_or packet 1 0) 256 else pos (get_or packet 1 0);
      dy =
          negate
            (if bit flags 5 then difference (get_or packet 2 0) 256 else pos (get_or packet 2 0));
      left = bit flags 0;
      right = bit flags 1;
      middle = bit flags 2;
    })

-- `poll`, after a byte was popped from the queue.
unfoldable pub poll_byte : PacketState → ℕ → Option MouseEvent × PacketState
poll_byte state byte =
    if state.index == 0 && not (bit byte 3)
    then (none, state)
    else let bytes = set state.bytes state.index byte in
      let index = state.index + 1 in
      if ltb index 3
      then (none, record { bytes = bytes; index = index })
      else (decode_packet bytes, record { bytes = bytes; index = 0 })

-- The device's side, after the PS/2 protocol: a motion of -256 to 255 as nine bits, the ninth in
-- the flags. `up` counts upwards.
pub record Motion : Type 0 where
  pub left : Bool
  pub right : Bool
  pub middle : Bool
  pub negative_x : Bool
  pub negative_up : Bool
  pub low_x : ℕ
  pub low_up : ℕ

abbrev pub IsMotion : Motion → Type 0
IsMotion v = (v.low_x < 256) × (v.low_up < 256)

abbrev pub flag : Bool → ℕ → ℕ
flag b n = if b then n else 0

unfoldable pub flags_of : Motion → ℕ
flags_of v =
    flag v.left 1
    + flag v.right 2
    + flag v.middle 4
    + 8
    + flag v.negative_x 16
    + flag v.negative_up 32

unfoldable pub packet_of : Motion → List ℕ
packet_of v = flags_of v ∷ v.low_x ∷ v.low_up ∷ []

-- The nine bits as a number.
abbrev pub signed : Bool → ℕ → ℤ
signed negative n = if negative then difference n 256 else pos n

abbrev pub event_of : Motion → MouseEvent
event_of v = record {
  dx = signed v.negative_x v.low_x;
  dy = negate (signed v.negative_up v.low_up);
  left = v.left;
  right = v.right;
  middle = v.middle;
}

pub bit-flags :
    (l r m x u : Bool)
    → (let f = flag l 1 + flag r 2 + flag m 4 + 8 + flag x 16 + flag u 32 in
        (bit f 0 ≡ l)
        × (bit f 1 ≡ r)
        × (bit f 2 ≡ m)
        × (bit f 3 ≡ true)
        × (bit f 4 ≡ x)
        × (bit f 5 ≡ u)
        × (bit f 6 ≡ false)
        × (bit f 7 ≡ false))
bit-flags l r m x u = ground arith

-- Decoding the packet that the device sends for a motion gives the motion back, with the vertical
-- direction reversed, and the three buttons.
pub decode_packet-packet_of : (v : Motion) → decode_packet (packet_of v) ≡ some (event_of v)
unfolding decode_packet packet_of flags_of
decode_packet-packet_of v =
    let (l, r, m, _, x, u, a, b) = bit-flags v.left v.right v.middle v.negative_x v.negative_up in
    rw (l, r, m, x, u, a, b) refl
