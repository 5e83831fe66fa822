-- ===== src/Pwm.antt =====
-- The PWM controller: include/drivers/pwm/pwm_controller.hpp, src/drivers/pwm/pwm_controller.cpp. Its
-- timer, the member `m_timer`, is the timer of a timer's `World`, which holds what that may be
-- attached to.
pub mod Phases
pub mod Output
mod Tests
use embedded_firmware_simula.Prelude.{
  ℕ, ◌+◌, ◌*◌, ◌/◌, ◌%◌, ◌^◌, Bool, true, false, not, ◌||◌, List, [], ◌∷◌, ltb, leb, ◌==◌,
  if◌then◌else◌, Outcome, ok, throws, invalid_argument, runtime_error, require, bit_or, ◌>>=◌, ◌>>◌,
}
use embedded_firmware_simula.Prelude.Bits.{set_bit, clear_bit, test_bit}
use embedded_firmware_simula.Mmio.Register.{Register}
use embedded_firmware_simula.Mmio.Register
use embedded_firmware_simula.Mmio.Bus.{MmioBus, at_offset, register_all, unregister_all}
use embedded_firmware_simula.Timer.{Timer, World}
use embedded_firmware_simula.Timer

pub record Pwm : Type 0 where
  pub base_address : ℕ
  pub system_clock_hz : ℕ
  pub control_register : Register
  pub freq_register : Register
  pub duty_register : Register
  pub status_register : Register
  pub period_ticks : ℕ
  pub on_ticks : ℕ

-- The controller with its timer and what that is attached to.
pub record PwmWorld (T H : Type 0) : Type 0 where
  pub pwm : Pwm
  pub world : World T H

pub data Port : Type 0 where
  control_port freq_port duty_port status_port : Port
  timer_port : Timer.Port → Port

unfoldable pub control_address : ℕ → ℕ
control_address base = at_offset base 0x00

unfoldable pub freq_address : ℕ → ℕ
freq_address base = at_offset base 0x04

unfoldable pub duty_address : ℕ → ℕ
duty_address base = at_offset base 0x08

unfoldable pub status_address : ℕ → ℕ
status_address base = at_offset base 0x0c

-- Where the timer's registers begin.
abbrev timer_base : ℕ → ℕ
timer_base base = at_offset base 0x10

unfoldable pub enabled : Pwm → Bool
unfolding Register.read
enabled p = test_bit (Register.read p.control_register) 0

unfoldable pub frequency : Pwm → ℕ
unfolding Register.read
frequency p = Register.read p.freq_register

unfoldable pub duty_cycle : Pwm → ℕ
unfolding Register.read
duty_cycle p = Register.read p.duty_register

-- `cnt < m_onTicks`, with the counter taken in the period.
abbrev pub is_on : Pwm → Timer → Bool
is_on p t = ltb (if ltb 0 p.period_ticks then Timer.counter t % p.period_ticks else 0) p.on_ticks

unfoldable pub output_state : Pwm → Timer → Bool
output_state p t =
    if not (enabled p)
    then false
    else if duty_cycle p == 0
    then false
    else if duty_cycle p == 100
    then true
    else is_on p t

-- The value that `updateStatusRegister` computes.
abbrev pub status_value : Bool → Bool → ℕ
status_value on output =
    let s0 : ℕ = if on then bit_or 0 1 else 0 in if output then bit_or s0 2 else s0

unfoldable pub update_status_register : Pwm → Timer → Pwm
unfolding Register.write
update_status_register p t = record p {
  status_register = Register.write p.status_register (status_value (enabled p) (output_state p t));
}

-- `m_systemClockHz / freq`, at least 1, for a frequency that is at least 1.
abbrev at_least_one : ℕ → ℕ
at_least_one n = if n == 0 then 1 else n

abbrev pub period_of : ℕ → ℕ → ℕ
period_of clock freq = at_least_one (clock / at_least_one freq)

-- The first part of `updatePeriodAndDuty`.
unfoldable pub with_period : Pwm → Pwm
with_period p =
    let period = period_of p.system_clock_hz (frequency p) in
    record p { period_ticks = period; on_ticks = (period * duty_cycle p) / 100 % 2 ^ 32 }

abbrev created : ℕ → ℕ → ℕ → ℕ → Pwm
created base freq duty clock = record {
  base_address = base;
  system_clock_hz = clock;
  control_register = Register.new (control_address base) 0;
  freq_register = Register.new (freq_address base) freq;
  duty_register = Register.new (duty_address base) duty;
  status_register = Register.new (status_address base) 0;
  period_ticks = 1000;
  on_ticks = 500;
}

abbrev pub entries : {R : Type 0} → (Port → R) → ℕ → List (ℕ × R)
entries ref base =
    (control_address base, ref control_port)
    ∷ (freq_address base, ref freq_port)
    ∷ (duty_address base, ref duty_port)
    ∷ (status_address base, ref status_port)
    ∷ []

abbrev timer_addresses : ℕ → List ℕ
timer_addresses base =
    Timer.ctrl_address base
    ∷ Timer.count_address base
    ∷ Timer.compare_address base
    ∷ Timer.status_address base
    ∷ []

-- `frequencyHz == 0 || frequencyHz > m_systemClockHz`
abbrev pub invalid_frequency : ℕ → ℕ → Bool
invalid_frequency clock freq = freq == 0 || ltb clock freq

-- The checks of the constructor's arguments.
abbrev pub validate : ℕ → ℕ → ℕ → Outcome (Unit {0})
validate freq duty clock = do
  require (not (clock == 0)) invalid_argument
  require (not (invalid_frequency clock freq)) invalid_argument
  require (not (ltb 100 duty)) invalid_argument

-- The rest of the constructor, with the timer made: an exception destroys the timer.
abbrev with_timer :
    {R : Type 0}
    → MmioBus R
    → List (ℕ × R)
    → Pwm
    → Timer
    → Outcome (Unit {0})
    → MmioBus R × Outcome (Pwm × Timer)
with_timer bus ours p t (throws e) = (unregister_all bus (timer_addresses t.base_address), throws e)
with_timer bus ours p t (ok u) =
    let (bus', done) = register_all bus ours in
    if done
    then (bus', ok (update_status_register (with_period p) t, t))
    else (unregister_all bus' (timer_addresses t.base_address), throws runtime_error)

abbrev when_made :
    {R : Type 0}
    → List (ℕ × R)
    → Pwm
    → Outcome (Unit {0})
    → MmioBus R × Outcome Timer
    → MmioBus R × Outcome (Pwm × Timer)
when_made ours p valid (bus, throws e) = (bus, throws e)
when_made ours p valid (bus, ok t) = with_timer bus ours p t valid

-- The constructor. The timer is made first, and takes its registers; its arguments are the base
-- address, the frequency, the duty cycle in per cent and the frequency of the system clock.
unfoldable pub new :
    {R : Type 0} → (Port → R) → MmioBus R → ℕ → ℕ → ℕ → ℕ → MmioBus R × Outcome (Pwm × Timer)
unfolding Register.new
new ref bus base freq duty clock =
    when_made (entries ref base) (created base freq duty clock) (validate freq duty clock)
      (Timer.new (λ p. ref (timer_port p)) bus (timer_base base))

-- `ctrl |= CTRL_ENABLE_BIT` or `ctrl &= ~CTRL_ENABLE_BIT`
abbrev pub switched : Bool → Pwm → Pwm
switched true p = record p {
  control_register =
      Register.write p.control_register (set_bit (Register.read p.control_register) 0);
}
switched false p = record p {
  control_register =
      Register.write p.control_register (clear_bit (Register.read p.control_register) 0);
}

module _ {T H : Type 0} where
  -- The destructor, and then that of the timer.
  unfoldable pub destroy : {R : Type 0} → MmioBus R → PwmWorld T H → MmioBus R × World T H
  destroy bus w =
      Timer.destroy
        (unregister_all bus (
          control_address w.pwm.base_address
          ∷ freq_address w.pwm.base_address
          ∷ duty_address w.pwm.base_address
          ∷ status_address w.pwm.base_address
          ∷ []))
        w.world

  -- `updateStatusRegister()` as the last step of an operation.
  unfoldable pub refresh : PwmWorld T H → PwmWorld T H
  refresh w = record w { pwm = update_status_register w.pwm w.world.timer }

  unfoldable pub disable : PwmWorld T H → PwmWorld T H
  unfolding Register.read Register.write
  disable w = refresh (record { pwm = switched false w.pwm; world = Timer.stop w.world })

  module _ (compare_match : T) where
    unfoldable pub update_period_and_duty : PwmWorld T H → PwmWorld T H
    update_period_and_duty w =
        let p = with_period w.pwm in
        record {
          pwm = p;
          world =
              if enabled p then Timer.set_compare compare_match w.world p.period_ticks else w.world;
        }

    unfoldable pub enable : PwmWorld T H → PwmWorld T H
    unfolding Register.read Register.write
    enable w =
        let auto = record w.world { timer = Timer.set_auto_reset w.world.timer true } in
        refresh (record {
          pwm = switched true w.pwm;
          world =
              Timer.start compare_match (Timer.set_compare compare_match auto w.pwm.period_ticks);
        })

    unfoldable pub set_frequency : PwmWorld T H → ℕ → Outcome (PwmWorld T H)
    unfolding Register.write
    set_frequency w freq = do
      require (not (invalid_frequency w.pwm.system_clock_hz freq)) invalid_argument
      ok (
          refresh (
            update_period_and_duty (record w {
              pwm = record w.pwm { freq_register = Register.write w.pwm.freq_register freq };
            })))

    unfoldable pub set_duty_cycle : PwmWorld T H → ℕ → Outcome (PwmWorld T H)
    unfolding Register.write
    set_duty_cycle w percent = do
      require (not (ltb 100 percent)) invalid_argument
      ok (
          refresh (
            update_period_and_duty (record w {
              pwm = record w.pwm { duty_register = Register.write w.pwm.duty_register percent };
            })))

    -- The end of `tick`, after the timer's tick.
    abbrev pub ticked : Pwm → World T H × Outcome (Unit {0}) → PwmWorld T H × Outcome (Unit {0})
    ticked p (w, throws e) = (record { pwm = p; world = w }, throws e)
    ticked p (w, ok u) = (refresh (record { pwm = p; world = w }), ok tt)

    unfoldable pub tick : PwmWorld T H → PwmWorld T H × Outcome (Unit {0})
    tick w =
        let started =
          if Timer.running w.world.timer then w.world else Timer.start compare_match w.world in
        if enabled w.pwm then ticked w.pwm (Timer.tick started) else (refresh w, ok tt)

    unfoldable pub reset : PwmWorld T H → PwmWorld T H
    unfolding Register.reset
    reset w =
        let off = disable w in
        refresh (
          update_period_and_duty (record {
            pwm = record off.pwm {
              control_register = Register.reset off.pwm.control_register;
              freq_register = Register.reset off.pwm.freq_register;
              duty_register = Register.reset off.pwm.duty_register;
            };
            world = Timer.reset off.world;
          }))
