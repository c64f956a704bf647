-- ===== src/Timer/Tests.antt =====
-- Runs of the timer's conversions, after the tests of src/timer/mod.rs, and the theorems at them.
use agnost_os.Base.{ℕ, ◌+◌, ◌-◌, ◌*◌, ◌/◌, ◌<◌, ◌≤◌, ◌≡◌, refl, true, arith, List, [], ◌∷◌, ◌++◌}
use agnost_os.Input.Ps2.{Ports}
use agnost_os.Timer.{
  pit_frequency, pit_divisor, ticks_for_ms, uptime_ms, format_uptime, deadline_ms, expired,
  sleep_ms,
}
use agnost_os.Timer.Sleep.{IsTicking, sleep_ms_lem}

run-subsecond : format_uptime 999 ≡ (0, 0, 0)
unfolding format_uptime
run-subsecond = refl

run-hours : format_uptime 3661000 ≡ (1, 1, 1)
unfolding format_uptime
run-hours = refl

run-ticks : ticks_for_ms 100 ≡ 101
unfolding ticks_for_ms
run-ticks = refl

run-uptime : uptime_ms 1000 ≡ 999
unfolding uptime_ms
run-uptime = refl

run-expired : expired 108 (deadline_ms 7 100) ≡ true
unfolding expired deadline_ms ticks_for_ms
run-expired = refl

-- A machine on which every other halt is ended by a tick.
abbrev every_other : ℕ → ℕ
every_other i = i / 2

every_other-IsTicking : IsTicking 2 every_other
every_other-IsTicking = record { forwards = λ i. omega arith; ticks = λ i. omega arith }

sleep_ms_lem_example :
    (halts : ℕ) × (sleep_ms true (ticks_for_ms 100 * 2 + 1) every_other 100 ≡ (true, halts))
    × (halts ≤ ticks_for_ms 100 * 2)
    × (100 * pit_frequency ≤ (every_other (halts + 1) - every_other 0) * (pit_divisor * 1000))
    × ((i : ℕ) → i < halts → every_other (i + 1) < every_other 0 + ticks_for_ms 100)
sleep_ms_lem_example =
    sleep_ms_lem 2 every_other 100 every_other-IsTicking (omega (arith, run-ticks))

-- Ports that keep only what was written.
abbrev log_ports : Ports
log_ports = record {
  State = List (ℕ × ℕ);
  inb = λ s port. (0, s);
  outb = λ s value port. s ++ (value, port) ∷ [];
  log = λ s. s;
  log-inb = λ s port. refl;
  log-outb = λ s value port. refl;
}
