-- ===== src/Timer/Sleep.antt =====
-- src/timer/mod.rs: `sleep_ms` ends, and not before its time.
use agnost_os.Base.{
  ℕ, zero, suc, ◌+◌, ◌-◌, ◌*◌, ◌≤◌, ◌<◌, ◌≡◌, refl, true, false, arith, ltb, ◌==◌, Bool-cases, inl,
  inr, u64_max,
}
use mathlib.Core.Path.{subst}
use agnost_os.Timer.{
  pit_frequency, pit_divisor, ticks_for_ms, deadline_ms, expired, sleep_loop, sleep_ms,
}
use agnost_os.Timer.Ticks.{expired-deadline_ms}

-- The tick counter never runs backwards, and whatever other interrupts end a halt, it has moved on
-- after `wakes` halts in a row.
pub record IsTicking (wakes : ℕ) (reading : ℕ → ℕ) : Type 0 where
  pub forwards : (i : ℕ) → reading i ≤ reading (i + 1)
  pub ticks : (i : ℕ) → reading (i + 1) < reading (i + 1 + wakes)

-- After `n` times `wakes` halts the counter has moved on by `n`.
reading-le :
    (wakes : ℕ) (reading : ℕ → ℕ) (n : ℕ)
    → IsTicking wakes reading
    → reading 0 + n ≤ reading (n * wakes + 1)
reading-le wakes reading zero t =
    let first : reading 0 ≤ reading 1 = t.forwards 0 in
    let start : reading 0 + 0 ≤ reading 1 = omega (arith, first) in
    let same : 1 ≡ 0 * wakes + 1 = omega arith in subst (λ i. reading 0 + 0 ≤ reading i) same start
reading-le wakes reading (suc n) t =
    let before = reading-le wakes reading n t in
    let next = t.ticks (n * wakes) in
    let same : n * wakes + 1 + wakes ≡ suc n * wakes + 1 = omega arith in
    let next' : reading (n * wakes + 1) < reading (suc n * wakes + 1) =
      subst (λ i. reading (n * wakes + 1) < reading i) same next in
    omega (arith, before, next')

late_at :
    (reading : ℕ → ℕ) (target halts : ℕ)
    → target ≤ reading (halts + 1)
    → ltb (reading (halts + 1)) target ≡ false
late_at reading target halts le = ground arith

-- The loop ends at the first reading that is not before the target, if there is one within the fuel.
sleep_loop_lem :
    (fuel : ℕ) (reading : ℕ → ℕ) (target halts : ℕ)
    → target ≤ reading (halts + fuel + 1)
    → (j : ℕ) × (sleep_loop (suc fuel) reading target halts ≡ (true, j))
      × (j ≤ halts + fuel)
      × (target ≤ reading (j + 1))
      × ((i : ℕ) → halts ≤ i → i < j → reading (i + 1) < target)
unfolding sleep_loop
sleep_loop_lem zero reading target halts enough = (
  halts,
  rw
      (
        sleep_loop,
        late_at reading target halts (subst (λ i. target ≤ reading i) (omega arith) enough),
      )
      refl,
  omega arith,
  subst (λ i. target ≤ reading i) (omega arith) enough,
  λ i from to. absurd (omega arith),
)
sleep_loop_lem (suc fuel) reading target halts enough =
    elim (Bool-cases (ltb (reading (halts + 1)) target)) [
      | inr late ↦ (
        halts,
        rw (sleep_loop, late) refl,
        omega arith,
        ground arith,
        λ i from to. absurd (omega arith),
      )
      | inl early ↦
          let (j, e, bound, le, before) =
            sleep_loop_lem fuel reading target (halts + 1)
              (subst (λ i. target ≤ reading i) (omega arith) enough) in
          (
            j,
            rw (sleep_loop, early) e,
            omega arith,
            le,
            λ i from to. elim (Bool-cases (i == halts)) [
              | inl same ↦ ground arith
              | inr other ↦ before i (ground arith) to
            ],
          )
    ]

deadline-fits :
    (start ms : ℕ)
    → start + ticks_for_ms ms < u64_max
    → deadline_ms start ms ≡ start + ticks_for_ms ms
unfolding deadline_ms
deadline-fits start ms h = ground arith

expired-le : (now deadline : ℕ) → deadline ≤ now → expired now deadline ≡ true
unfolding expired
expired-le now deadline le = ground arith

-- With interrupts enabled, while the tick counter never runs backwards and moves on after `wakes`
-- halts in a row, and below the last tick that the word holds: `sleep_ms` ends, after at most `wakes`
-- halts for each tick to wait for. At its end at least the time asked for has passed, and before each
-- of its halts the counter had not yet moved on by the ticks to wait for.
pub sleep_ms_lem :
    (wakes : ℕ) (reading : ℕ → ℕ) (ms : ℕ)
    → IsTicking wakes reading
    → reading 0 + ticks_for_ms ms < u64_max
    → (halts : ℕ) × (sleep_ms true (ticks_for_ms ms * wakes + 1) reading ms ≡ (true, halts))
      × (halts ≤ ticks_for_ms ms * wakes)
      × (ms * pit_frequency ≤ (reading (halts + 1) - reading 0) * (pit_divisor * 1000))
      × ((i : ℕ) → i < halts → reading (i + 1) < reading 0 + ticks_for_ms ms)
unfolding sleep_ms
sleep_ms_lem wakes reading ms t fits =
    let start : ticks_for_ms ms * wakes + 1 ≡ 0 + ticks_for_ms ms * wakes + 1 = omega arith in
    let d : deadline_ms (reading 0) ms ≡ reading 0 + ticks_for_ms ms =
      deadline-fits (reading 0) ms fits in
    let (j, e, bound, le, early) =
      sleep_loop_lem (ticks_for_ms ms * wakes) reading (deadline_ms (reading 0) ms) 0 (
        rw d (
          subst (λ i. reading 0 + ticks_for_ms ms ≤ reading i) start
            (reading-le wakes reading (ticks_for_ms ms) t))) in
    let (_, enough) =
      expired-deadline_ms (reading 0) (reading (j + 1)) ms fits
        (expired-le (reading (j + 1)) _ le) in
    let one : ticks_for_ms ms * wakes + 1 ≡ suc (ticks_for_ms ms * wakes) = omega arith in
    (j, rw one e, omega (arith, bound), enough, λ i lt. rw d at (early i (omega arith) lt))
