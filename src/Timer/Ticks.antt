-- ===== src/Timer/Ticks.antt =====
-- src/timer/mod.rs: the conversions between ticks and milliseconds.
use agnost_os.Base.{
  ℕ, ◌+◌, ◌-◌, ◌*◌, ◌/◌, ◌%◌, ◌≤◌, ◌<◌, ◌≡◌, refl, ap, ◌∙◌, true, arith, [], ◌∷◌, ◌++◌, u64_max,
}
use agnost_os.Timer.{
  pit_frequency, pit_divisor, divisor, format_uptime, ticks_for_ms, deadline_ms, expired,
  pit_initialize,
}
use agnost_os.Input.Ps2.{Ports}
use mathlib.Core.List.{append_assoc}

-- The ticks for a time are the least number that last at least that long, where the word holds it:
-- in the units of the timer, ms / 1000 seconds are not more than the ticks and more than one tick
-- less.
pub ticks_for_ms_lem :
    (ms : ℕ)
    → ticks_for_ms ms < u64_max
    → (ms * pit_frequency ≤ ticks_for_ms ms * (pit_divisor * 1000))
      × ((n : ℕ) → ms * pit_frequency ≤ n * (pit_divisor * 1000) → ticks_for_ms ms ≤ n)
unfolding ticks_for_ms
ticks_for_ms_lem ms h = (ground arith, λ n le. ground arith)

-- A deadline that has expired was long enough: if the ticks have reached the deadline that was taken
-- for `ms` milliseconds, and it was not cut off at 2^64 - 1, then at least that time has passed.
pub expired-deadline_ms :
    (start now ms : ℕ)
    → start + ticks_for_ms ms < u64_max
    → expired now (deadline_ms start ms) ≡ true
    → (start ≤ now) × (ms * pit_frequency ≤ (now - start) * (pit_divisor * 1000))
unfolding expired deadline_ms
expired-deadline_ms start now ms fits h =
    let (enough, _) = ticks_for_ms_lem ms (omega arith) in (ground arith, ground arith)

-- The uptime is printed exactly: the hours, minutes and seconds make up the whole seconds of the
-- uptime, with minutes and seconds below sixty.
pub format_uptime_lem :
    (uptime : ℕ)
    → (let (hours, minutes, seconds) = format_uptime uptime in
        (hours * 3600 + minutes * 60 + seconds ≡ uptime / 1000) × (minutes < 60) × (seconds < 60))
unfolding format_uptime
format_uptime_lem uptime = (omega arith, omega arith, omega arith)

-- The timer is programmed with the divisor that the conversions use: its two bytes follow the mode,
-- the low one first.
pub pit_initialize_lem :
    (io : Ports) (s : io.State)
    → (low : ℕ) × (high : ℕ) × (io.log (pit_initialize io s)
        ≡ io.log s ++ (0x36, 0x43) ∷ (low, 0x40) ∷ (high, 0x40) ∷ [])
      × (low + 256 * high ≡ pit_divisor)
      × (low < 256)
      × (high < 256)
unfolding pit_initialize
pit_initialize_lem io s =
    let s1 = io.outb s 0x36 0x43 in
    let s2 = io.outb s1 (divisor % 256) 0x40 in
    let l1 = io.log-outb s 0x36 0x43 in
    let l2 = io.log-outb s1 (divisor % 256) 0x40 in
    let l3 = io.log-outb s2 (divisor / 256 % 256) 0x40 in
    let e = append_assoc (io.log s) ((0x36, 0x43) ∷ []) ((divisor % 256, 0x40) ∷ []) in
    let f =
      append_assoc (io.log s) ((0x36, 0x43) ∷ (divisor % 256, 0x40) ∷ [])
        ((divisor / 256 % 256, 0x40) ∷ []) in
    (
      divisor % 256,
      divisor / 256 % 256,
      l3
          ∙ (ap (λ z. z ++ (divisor / 256 % 256, 0x40) ∷ [])
                (l2 ∙ (ap (λ z. z ++ (divisor % 256, 0x40) ∷ []) l1 ∙ e))
              ∙ f),
      refl,
      omega arith,
      omega arith,
    )
