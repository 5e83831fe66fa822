-- ===== src/Clock/Laws.antt =====
-- Elapsed time (src/system/clock/simulation_clock.cpp) and where its product fits 64 bits.
use native.Mathlib.Nat.{
  div-div-eq-div-mul, mul-div-mul_right, mod-eq_of_lt, le-div_iff_mul-le, div-le_self,
}
use embedded_firmware_simula.Prelude.{ℕ, ◌*◌, ◌/◌, ◌^◌, ◌<◌, ◌≤◌, ◌≡◌, sym, ap, ◌∙◌, ok, arith}
use embedded_firmware_simula.Clock.{
  SimulationClock, new, tick, reset, set_frequency, elapsed, elapsed_nanoseconds,
  elapsed_microseconds, elapsed_milliseconds,
}

abbrev pub IsValid : SimulationClock → Type 0
IsValid c = (0 < c.frequency_hz) × (c.cycles < 2 ^ 64)

-- The constructor and every operation that succeeds keep the frequency positive and the cycle
-- count a 64-bit word.
pub step-IsValid :
    (c d e : SimulationClock) (f count : ℕ)
    → IsValid c
    → new f ≡ ok d
    → set_frequency c f ≡ ok e
    → IsValid d × IsValid e × IsValid (tick c count) × IsValid (reset c)
unfolding new set_frequency tick reset
step-IsValid c d e f count v hd he = ground arith

thousandth : (x y f : ℕ) → y ≡ x * 1000 → y / f / 1000 ≡ x / f
thousandth x y f e =
    rw e (div-div-eq-div-mul (x * 1000) f 1000 ∙ mul-div-mul_right x f (omega arith))

-- With a product that fits 64 bits the quotient is exact.
elapsed_exact :
    (c : SimulationClock) (scale : ℕ)
    → 0 < c.frequency_hz
    → c.cycles * scale < 2 ^ 64
    → elapsed c scale ≡ c.cycles * scale / c.frequency_hz
elapsed_exact c scale f h = rw (mod-eq_of_lt h) (ground arith)

-- As long as cycles times 10 ^ 9 fits 64 bits, the nanoseconds are the exact quotient, and the
-- coarser units are the nanoseconds rounded down.
pub elapsed_agree :
    (c : SimulationClock)
    → 0 < c.frequency_hz
    → c.cycles * 1_000_000_000 < 2 ^ 64
    → (elapsed_nanoseconds c ≡ c.cycles * 1_000_000_000 / c.frequency_hz)
      × (elapsed_microseconds c ≡ elapsed_nanoseconds c / 1000)
      × (elapsed_milliseconds c ≡ elapsed_microseconds c / 1000)
unfolding elapsed_nanoseconds elapsed_microseconds elapsed_milliseconds
elapsed_agree c f h =
    let nano = elapsed_exact c 1_000_000_000 f h in
    let micro = elapsed_exact c 1_000_000 f (omega arith) in
    let milli = elapsed_exact c 1_000 f (omega arith) in
    (
      nano,
      micro ∙ sym (ap (λ (t : ℕ). t / 1000) nano ∙ thousandth _ _ c.frequency_hz (omega arith)),
      milli ∙ sym (ap (λ (t : ℕ). t / 1000) micro ∙ thousandth _ _ c.frequency_hz (omega arith)),
    )

-- One more cycle after 18446744073 of them takes the elapsed nanoseconds back, at every frequency
-- up to 10 ^ 9 Hz: the product wraps.
pub elapsed_nanoseconds-tick_wraps :
    (c : SimulationClock)
    → 0 < c.frequency_hz
    → c.frequency_hz ≤ 1_000_000_000
    → c.cycles ≡ 18_446_744_073
    → elapsed_nanoseconds (tick c 1) < elapsed_nanoseconds c
unfolding elapsed_nanoseconds tick
elapsed_nanoseconds-tick_wraps c f g h =
    let small : 290_448_384 / c.frequency_hz ≤ 290_448_384 = div-le_self _ _ in
    let large : 18_446_744_073 ≤ 18_446_744_073_000_000_000 / c.frequency_hz =
      (le-div_iff_mul-le f).1 (omega arith) in
    rw h (ground (arith, small, large))
