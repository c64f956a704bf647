-- ===== src/Input.antt =====
-- src/mouse, src/keyboard: the bytes of the input devices, from the interrupt to the event.
pub mod Ring
pub mod Packet
pub mod Stream
pub mod Queue
pub mod Ps2
pub mod Keyboard
pub mod Tests
