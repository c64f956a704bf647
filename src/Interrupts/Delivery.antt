-- ===== src/Interrupts/Delivery.antt =====
-- Which interrupts reach the processor: the writes against a pair of 8259 chips.
use agnost_os.Base.{
  ℕ, zero, suc, ◌+◌, ◌-◌, ◌≡◌, refl, Bool, false, not, ◌&&◌, Option, none, some, List, [], ◌∷◌,
  ◌++◌, ltb, ◌==◌, if◌then◌else◌, bit,
}
use agnost_os.Interrupts.{
  Irq, timer, keyboard, mouse, master_command, master_data, slave_command, slave_data, initialize,
  vector_for, acknowledge, enable_runtime, enable_mouse,
}

-- What the next write to the data port is taken for: the mask, or an initialization word.
pub data Phase : Type 0 where
  ready icw2 icw3 icw4 : Phase

-- A chip; of the lines in service, the one of highest priority stands first.
pub record Chip : Type 0 where
  pub phase : Phase
  pub base : ℕ
  pub links : ℕ
  pub mask : ℕ
  pub in_service : List ℕ

pub record Pics : Type 0 where
  pub master : Chip
  pub slave : Chip

abbrev rest : List ℕ → List ℕ
rest [] = []
rest (n ∷ ns) = ns

-- The command port: ICW1 for two chips with all four words, and the unspecific end of interrupt.
unfoldable pub command : Chip → ℕ → Chip
command c value =
    if bit value 4
    then record c { phase = icw2; mask = 0; in_service = [] }
    else if value == 0x20
    then record c { in_service = rest c.in_service }
    else c

unfoldable pub data_word : Phase → Chip → ℕ → Chip
data_word ready c value = record c { mask = value }
data_word icw2 c value = record c { base = value; phase = icw3 }
data_word icw3 c value = record c { links = value; phase = icw4 }
data_word icw4 c value = record c { phase = ready }

unfoldable pub outb : Pics → ℕ × ℕ → Pics
unfolding command data_word
outb p (value, port) =
    if port == master_command
    then record p { master = command p.master value }
    else if port == master_data
    then record p { master = data_word p.master.phase p.master value }
    else if port == slave_command
    then record p { slave = command p.slave value }
    else if port == slave_data
    then record p { slave = data_word p.slave.phase p.slave value }
    else p

unfoldable pub outb_all : Pics → List (ℕ × ℕ) → Pics
unfolding outb
outb_all p [] = p
outb_all p (write ∷ writes) = outb_all (outb p write) writes

-- A line of a chip in operation that is not masked.
abbrev is_open : Chip → ℕ → Bool
is_open c line = elim c.phase [
  | ready ↦ not (bit c.mask line)
  | icw2 ↦ false
  | icw3 ↦ false
  | icw4 ↦ false
]

-- The vector that a request on one of the 16 lines is delivered with. A line of the slave goes
-- through the line of the master that the slave is linked to.
unfoldable pub vector_of : Pics → ℕ → Option ℕ
vector_of p line =
    if ltb line 8
    then (if is_open p.master line && not (bit p.master.links line)
        then some (p.master.base + line)
        else none)
    else if is_open p.slave (line - 8)
        && (bit p.master.links p.slave.links && is_open p.master p.slave.links)
    then some (p.slave.base + (line - 8))
    else none

abbrev keep : Option ℕ → List ℕ → List ℕ
keep none vectors = vectors
keep (some v) vectors = v ∷ vectors

-- The vectors that can be delivered, from a number of lines on.
unfoldable pub vectors_below : Pics → ℕ → List ℕ
unfolding vector_of
vectors_below p zero = []
vectors_below p (suc n) = keep (vector_of p n) (vectors_below p n)

abbrev pub vectors : Pics → List ℕ
vectors p = vectors_below p 16

-- The line of a device.
abbrev pub line_of : Irq → ℕ
line_of timer = 0
line_of keyboard = 1
line_of mouse = 12

-- An interrupt that the processor takes is in service, in both chips if it comes from the slave.
unfoldable pub take_interrupt : Pics → ℕ → Pics
take_interrupt p line =
    if ltb line 8
    then record p { master = record p.master { in_service = line ∷ p.master.in_service } }
    else record p {
      master = record p.master { in_service = p.slave.links ∷ p.master.in_service };
      slave = record p.slave { in_service = (line - 8) ∷ p.slave.in_service };
    }

-- Whatever state the chips are in, `initialize` leaves no interrupt that can be delivered.
-- `enable_runtime` behind it lets the keyboard's interrupt through and no other, and `enable_mouse`
-- behind that the ones of the timer, the keyboard and the mouse and no other, each under its vector.
-- An interrupt that is taken and then acknowledged leaves both chips as they were.
pub outb_all_lem :
    (p : Pics)
    → (vectors (outb_all p initialize) ≡ [])
      × (vectors (outb_all p (initialize ++ enable_runtime)) ≡ vector_for keyboard ∷ [])
      × (vectors (outb_all p (initialize ++ (enable_runtime ++ enable_mouse)))
          ≡ vector_for mouse ∷ vector_for keyboard ∷ vector_for timer ∷ [])
      × ((irq : Irq) → outb_all (take_interrupt p (line_of irq)) (acknowledge irq) ≡ p)
unfolding outb_all vectors_below take_interrupt initialize enable_runtime enable_mouse acknowledge
    vector_for
outb_all_lem p = (refl, refl, refl, acknowledged)
  where
    acknowledged : (irq : Irq) → outb_all (take_interrupt p (line_of irq)) (acknowledge irq) ≡ p
    acknowledged timer = refl
    acknowledged keyboard = refl
    acknowledged mouse = refl
