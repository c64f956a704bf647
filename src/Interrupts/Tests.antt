-- ===== src/Interrupts/Tests.antt =====
-- Two chips as they come from the firmware, and the theorem at them.
use agnost_os.Base.{◌≡◌, [], ◌∷◌, ◌++◌}
use agnost_os.Interrupts.{
  Irq, timer, keyboard, mouse, initialize, vector_for, acknowledge, enable_runtime, enable_mouse,
}
use agnost_os.Interrupts.Delivery.{
  Pics, ready, icw3, outb_all, vectors, take_interrupt, line_of, outb_all_lem,
}

abbrev firmware_pics : Pics
firmware_pics = record {
  master = record { phase = ready; base = 8; links = 4; mask = 0; in_service = 0 ∷ [] };
  slave = record { phase = icw3; base = 0x70; links = 2; mask = 0xff; in_service = [] };
}

outb_all_lem_example :
    (vectors (outb_all firmware_pics initialize) ≡ [])
    × (vectors (outb_all firmware_pics (initialize ++ enable_runtime)) ≡ vector_for keyboard ∷ [])
    × (vectors (outb_all firmware_pics (initialize ++ (enable_runtime ++ enable_mouse)))
        ≡ vector_for mouse ∷ vector_for keyboard ∷ vector_for timer ∷ [])
    × ((irq : Irq)
        → outb_all (take_interrupt firmware_pics (line_of irq)) (acknowledge irq) ≡ firmware_pics)
outb_all_lem_example = outb_all_lem firmware_pics
