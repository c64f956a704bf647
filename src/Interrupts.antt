-- ===== src/Interrupts.antt =====
-- src/interrupts/pic.rs and src/interrupts/controller.rs: the writes to the legacy interrupt
-- controllers, in order, each a value and a port.
pub mod Delivery
pub mod Tests
use agnost_os.Base.{ℕ, ◌+◌, List, [], ◌∷◌}

-- `Irq`.
pub data Irq : Type 0 where
  timer keyboard mouse : Irq

abbrev pub master_offset : ℕ
master_offset = 32

abbrev pub slave_offset : ℕ
slave_offset = master_offset + 8

abbrev pub master_command : ℕ
master_command = 0x20

abbrev pub master_data : ℕ
master_data = 0x21

abbrev pub slave_command : ℕ
slave_command = 0xa0

abbrev pub slave_data : ℕ
slave_data = 0xa1

abbrev pub eoi : ℕ
eoi = 0x20

-- `ICW1_INIT | ICW1_ICW4`.
abbrev pub icw1 : ℕ
icw1 = 0x11

unfoldable pub initialize : List (ℕ × ℕ)
initialize =
    (icw1, master_command)
    ∷ (icw1, slave_command)
    ∷ (master_offset, master_data)
    ∷ (slave_offset, slave_data)
    ∷ (0x04, master_data)
    ∷ (0x02, slave_data)
    ∷ (0x01, master_data)
    ∷ (0x01, slave_data)
    ∷ (0b11111111, master_data)
    ∷ (0b11111111, slave_data)
    ∷ []

unfoldable pub vector_for : Irq → ℕ
vector_for timer = master_offset
vector_for keyboard = master_offset + 1
vector_for mouse = slave_offset + 4

-- `acknowledge_master` and `acknowledge_slave`.
unfoldable pub acknowledge : Irq → List (ℕ × ℕ)
acknowledge timer = (eoi, master_command) ∷ []
acknowledge keyboard = (eoi, master_command) ∷ []
acknowledge mouse = (eoi, slave_command) ∷ (eoi, master_command) ∷ []

unfoldable pub enable_runtime : List (ℕ × ℕ)
enable_runtime = (0b11111101, master_data) ∷ []

unfoldable pub enable_mouse : List (ℕ × ℕ)
enable_mouse = (0b11111000, master_data) ∷ (0b11101111, slave_data) ∷ []
