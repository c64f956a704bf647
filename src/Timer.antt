-- ===== src/Timer.antt =====
-- src/timer/mod.rs, src/interrupts/pit.rs: ticks of the interval timer, deadlines and sleeping.
pub mod Ticks
pub mod Sleep
pub mod Tests
use agnost_os.Base.{
  ℕ, zero, suc, ◌+◌, ◌-◌, ◌*◌, ◌/◌, ◌%◌, ◌≤◌, ◌<◌, min, Bool, true, false, not, List, [], ◌∷◌, ltb,
  leb, ◌==◌, if◌then◌else◌, u64_max, saturating, ◌^◌,
}
use agnost_os.Input.Ps2.{Ports}

abbrev pub pit_frequency : ℕ
pit_frequency = 1193182

abbrev pub timer_frequency : ℕ
timer_frequency = 1000

abbrev pub pit_divisor : ℕ
pit_divisor = pit_frequency / timer_frequency

-- `divisor()` of src/interrupts/pit.rs, a `u16`.
abbrev pub divisor : ℕ
divisor = (pit_frequency / timer_frequency) % 2 ^ 16

unfoldable pub uptime_ms : ℕ → ℕ
uptime_ms ticks = saturating (saturating (ticks * pit_divisor) * 1000) / pit_frequency

-- The hours, minutes and seconds that `format_uptime` prints.
unfoldable pub format_uptime : ℕ → ℕ × ℕ × ℕ
format_uptime uptime =
    let total_seconds = uptime / 1000 in
    (total_seconds / 3600, total_seconds % 3600 / 60, total_seconds % 60)

-- The products are `u128` values, which hold them: both factors are below 2^64.
unfoldable pub ticks_for_ms : ℕ → ℕ
ticks_for_ms milliseconds =
    if milliseconds == 0
    then 0
    else let numerator = milliseconds * pit_frequency in
      let denominator = pit_divisor * 1000 in
      let quotient = numerator / denominator in
      let rounded_up = quotient + (if numerator % denominator == 0 then 0 else 1) in
      min rounded_up u64_max

unfoldable pub deadline_ms : ℕ → ℕ → ℕ
deadline_ms ticks ms = saturating (ticks + ticks_for_ms ms)

unfoldable pub expired : ℕ → ℕ → Bool
expired ticks deadline = leb deadline ticks

-- The loop of `sleep_ms`, after a number of halts. `reading 0` is what `ticks()` returned before the
-- loop, and `reading (halts + 1)` what the loop's test reads behind that many halts. The result is
-- whether the loop ended within the fuel, and the number of halts.
unfoldable pub sleep_loop : ℕ → (ℕ → ℕ) → ℕ → ℕ → Bool × ℕ
sleep_loop zero reading target halts = (false, halts)
sleep_loop (suc fuel) reading target halts = elim (ltb (reading (halts + 1)) target) [
  | true ↦ sleep_loop fuel reading target (halts + 1)
  | false ↦ (true, halts)
]

-- `sleep_ms`, which returns at once if interrupts are not enabled.
unfoldable pub sleep_ms : Bool → ℕ → (ℕ → ℕ) → ℕ → Bool × ℕ
unfolding sleep_loop
sleep_ms interrupts_enabled fuel reading ms =
    if not interrupts_enabled
    then (true, 0)
    else sleep_loop fuel reading (deadline_ms (reading 0) ms) 0

module _ (io : Ports) where
  -- `initialize` of src/interrupts/pit.rs.
  unfoldable pub pit_initialize : io.State → io.State
  pit_initialize s =
      let s1 = io.outb s 0x36 0x43 in
      let s2 = io.outb s1 (divisor % 256) 0x40 in io.outb s2 (divisor / 256 % 256) 0x40
