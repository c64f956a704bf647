-- ===== src/Input/Stream.antt =====
-- src/mouse/mod.rs: a stream of bytes becomes the events of its packets.
use agnost_os.Base.{
  ℕ, ◌+◌, ◌<◌, ◌≡◌, refl, ap, ◌∙◌, true, false, not, ◌&&◌, none, some, List, [], ◌∷◌, ◌++◌, map,
  arith, ltb, ◌==◌, Bool-cases, inl, inr, bit, length, length-set, All,
}
use agnost_os.Input.Packet.{
  PacketState, MouseEvent, Motion, poll_byte, decode_packet, packet_of, flags_of, event_of,
  bit-flags, decode_packet-packet_of,
}

-- A call of `poll` for each byte, and the events that they return.
unfoldable pub poll_all : PacketState → List ℕ → List MouseEvent × PacketState
poll_all s [] = ([], s)
poll_all s (b ∷ bs) =
    let (e, s') = poll_byte s b in
    let (es, s'') = poll_all s' bs in elim e [ none ↦ (es, s'') | some event ↦ (event ∷ es, s'') ]

-- The bytes of a list of packets.
unfoldable pub packets_of : List Motion → List ℕ
packets_of [] = []
packets_of (v ∷ vs) = packet_of v ++ packets_of vs

-- Between two bytes the index points into the three bytes.
pub record IsPacketState (s : PacketState) : Type 0 where
  pub three : length s.bytes ≡ 3
  pub inside : s.index < 3

-- `poll` never writes past the three bytes: it keeps the index below three, whatever byte comes.
pub poll_byte-IsPacketState :
    (s : PacketState) (b : ℕ) → IsPacketState s → IsPacketState ((poll_byte s b).1)
unfolding poll_byte
poll_byte-IsPacketState s b v = elim (Bool-cases (s.index == 0 && not (bit b 3))) [
  | inl drop ↦ rw (poll_byte, drop) v
  | inr keep ↦ elim (Bool-cases (ltb (s.index + 1) 3)) [
    | inl more ↦
        rw (poll_byte, keep, more)
          (record { three = length-set s.bytes s.index b ∙ v.three; inside = ground arith })
    | inr done ↦
        rw (poll_byte, keep, done)
          (record { three = length-set s.bytes s.index b ∙ v.three; inside = omega arith })
  ]
]

flags-bit : (v : Motion) → bit (flags_of v) 3 ≡ true
unfolding flags_of
flags-bit v =
    let (_, _, _, h, _, _, _, _) = bit-flags v.left v.right v.middle v.negative_x v.negative_up in h

poll_all-nil : (s : PacketState) → (poll_all s []).0 ≡ []
unfolding poll_all
poll_all-nil s = refl

poll_all-none :
    (s s' : PacketState) (b : ℕ) (bs : List ℕ)
    → poll_byte s b ≡ (none, s')
    → poll_all s (b ∷ bs) ≡ poll_all s' bs
unfolding poll_all
poll_all-none s s' b bs e = rw (poll_all, e, e) refl

poll_all-some :
    (s s' : PacketState) (v : MouseEvent) (b : ℕ) (bs : List ℕ)
    → poll_byte s b ≡ (some v, s')
    → (poll_all s (b ∷ bs)).0 ≡ v ∷ (poll_all s' bs).0
unfolding poll_all
poll_all-some s s' v b bs e = rw (poll_all, e, e) refl

abbrev at : ℕ → ℕ → ℕ → ℕ → PacketState
at a b c i = record { bytes = a ∷ b ∷ c ∷ []; index = i }

poll_byte-first : (a b c f : ℕ) → bit f 3 ≡ true → poll_byte (at a b c 0) f ≡ (none, at f b c 1)
unfolding poll_byte
poll_byte-first a b c f h = rw h refl

poll_byte-second : (a b c f : ℕ) → poll_byte (at a b c 1) f ≡ (none, at a f c 2)
unfolding poll_byte
poll_byte-second a b c f = refl

poll_byte-third :
    (a b c f : ℕ) → poll_byte (at a b c 2) f ≡ (decode_packet (a ∷ b ∷ f ∷ []), at a b f 0)
unfolding poll_byte
poll_byte-third a b c f = refl

poll_byte-junk : (a b c f : ℕ) → bit f 3 ≡ false → poll_byte (at a b c 0) f ≡ (none, at a b c 0)
unfolding poll_byte
poll_byte-junk a b c f h = rw h refl

-- The three bytes of a packet, at its start.
poll_all-packet :
    (a b c : ℕ) (v : Motion) (rest : List ℕ)
    → (poll_all (at a b c 0) (flags_of v ∷ v.low_x ∷ v.low_up ∷ rest)).0
      ≡ event_of v ∷ (poll_all (at (flags_of v) v.low_x v.low_up 0) rest).0
unfolding packet_of
poll_all-packet a b c v rest =
    let f = flags_of v in
    let x = v.low_x in
    let u = v.low_up in
    let e1 =
      poll_all-none (at a b c 0) (at f b c 1) f (x ∷ u ∷ rest)
        (poll_byte-first a b c f (flags-bit v)) in
    let e2 = poll_all-none (at f b c 1) (at f x c 2) x (u ∷ rest) (poll_byte-second f b c x) in
    let d : decode_packet (f ∷ x ∷ u ∷ []) ≡ some (event_of v) = decode_packet-packet_of v in
    let t : poll_byte (at f x c 2) u ≡ (some (event_of v), at f x u 0) =
      poll_byte-third f x c u ∙ ap (λ m. (m, at f x u 0)) d in
    ap (λ p. p.0) (e1 ∙ e2) ∙ poll_all-some (at f x c 2) (at f x u 0) (event_of v) u rest t

-- From the start of a packet, any bytes that cannot begin one (bit 3 is clear) are skipped, and then
-- the bytes of a list of packets give exactly the events of these packets, in order.
pub poll_all-packets_of :
    (junk : List ℕ) (vs : List Motion) (a b c : ℕ)
    → All (λ byte. bit byte 3 ≡ false) junk
    → (poll_all (record { bytes = a ∷ b ∷ c ∷ []; index = 0 }) (junk ++ packets_of vs)).0
      ≡ map event_of vs
unfolding packets_of packet_of
poll_all-packets_of [] [] a b c j = poll_all-nil (at a b c 0)
poll_all-packets_of [] (v ∷ vs) a b c j =
    poll_all-packet a b c v (packets_of vs)
    ∙ ap (λ es. event_of v ∷ es) (poll_all-packets_of [] vs (flags_of v) v.low_x v.low_up tt)
poll_all-packets_of (byte ∷ junk) vs a b c (h, j) =
    ap (λ p. p.0)
      (poll_all-none (at a b c 0) (at a b c 0) byte (junk ++ packets_of vs)
        (poll_byte-junk a b c byte h))
    ∙ poll_all-packets_of junk vs a b c j
