-- ===== src/SystemBus/Resetting.antt =====
-- What a reset of the system bus leaves (src/system/system_bus.cpp).
use embedded_firmware_simula.Prelude.{
  ℕ, zero, suc, length, replicate, ◌≡◌, refl, ◌∙◌, sym, Bool, true, false, List, [], ◌∷◌, none,
  ◌==◌, Bool-cases, inl, inr, ==_self, ==_iff,
}
use mathlib.Core.Path.{subst}
use embedded_firmware_simula.Prelude.Members.{has, tabulate}
use embedded_firmware_simula.Prelude.Sorting.{All}
use embedded_firmware_simula.Clock
use embedded_firmware_simula.Events.{clear}
use embedded_firmware_simula.Timer.{Timer, World, stop, cancel_scheduled_event}
use embedded_firmware_simula.Timer
use embedded_firmware_simula.Dma.{DmaController}
use embedded_firmware_simula.Dma
use embedded_firmware_simula.Uart
use embedded_firmware_simula.Gpio.{Gpio}
use embedded_firmware_simula.Gpio
use embedded_firmware_simula.Pwm.{Pwm, PwmWorld}
use embedded_firmware_simula.Pwm
use embedded_firmware_simula.Interrupts.{InterruptController}
use embedded_firmware_simula.Interrupts
use embedded_firmware_simula.Memory
use embedded_firmware_simula.Spi
use embedded_firmware_simula.I2c
use embedded_firmware_simula.Adc
use embedded_firmware_simula.Adc.Voltages.{Double}
use embedded_firmware_simula.SystemBus.{
  SystemBus, BusWorld, for_each, reset_dma, reset_timer, if_given, reset,
}
use embedded_firmware_simula.SystemBus.Board.{Board as Hardware, world_of, pwm_of}

-- What one step of a loop establishes, and every step keeps, holds after the loop.
for_each-keeps :
    {B : Type 0} (f : ℕ → B → B) (P : B → Type 0)
    → ((j : ℕ) (b : B) → P b → P (f j b))
    → (xs : List ℕ) (b : B) → P b
    → P (for_each f xs b)
unfolding for_each
for_each-keeps f P keep [] b p = p
for_each-keeps f P keep (x ∷ xs) b p = for_each-keeps f P keep xs (f x b) (keep x b p)

for_each-reaches :
    {B : Type 0} (f : ℕ → B → B) (P : B → Type 0) (i : ℕ)
    → ((b : B) → P (f i b))
    → ((j : ℕ) (b : B) → P b → P (f j b))
    → (xs : List ℕ) (b : B) → has xs i ≡ true
    → P (for_each f xs b)
unfolding for_each
for_each-reaches f P i est keep [] b h = cc h
for_each-reaches f P i est keep (x ∷ xs) b h = elim (Bool-cases (x == i)) [
  | inl e ↦
      for_each-keeps f P keep xs (f x b) (subst (λ j. P (f j b)) (sym ((==_iff x i).0 e)) (est b))
  | inr e ↦ for_each-reaches f P i est keep xs (f x b) (rw e at h)
]

-- The control, count and status registers of the timer are at their initial values.
pub record IsCold (t : Timer) : Type 0 where
  pub ctrl : t.ctrl_register.value ≡ t.ctrl_register.initial_value
  pub count : t.count_register.value ≡ t.count_register.initial_value
  pub status : t.status_register.value ≡ t.status_register.initial_value

-- The DMA controller is between transfers, with no result.
pub record IsIdle (d : DmaController) : Type 0 where
  pub busy : d.busy ≡ false
  pub completed : d.completed ≡ false
  pub error : d.error ≡ false
  pub none_left : d.length ≡ 0

-- The registers of the GPIO are at their initial values.
pub record IsInitialGpio (g : Gpio) : Type 0 where
  pub directions : g.dir_register.value ≡ g.dir_register.initial_value
  pub outputs : g.out_register.value ≡ g.out_register.initial_value
  pub inputs : g.in_register.value ≡ g.in_register.initial_value

-- The registers for control, frequency and duty cycle are at their initial values.
pub record IsInitialPwm (p : Pwm) : Type 0 where
  pub control : p.control_register.value ≡ p.control_register.initial_value
  pub freq : p.freq_register.value ≡ p.freq_register.initial_value
  pub duty : p.duty_register.value ≡ p.duty_register.initial_value

-- No line is registered, and the registers are at their initial values.
pub record HasNoLines {H : Type 0} (c : InterruptController H) : Type 0 where
  pub none_registered : (i : ℕ) → c.registered i ≡ false
  pub enables : c.enable_register.value ≡ c.enable_register.initial_value
  pub pendings : c.pending_register.value ≡ c.pending_register.initial_value

All-replicate : (n a : ℕ) → All (λ byte. byte ≡ a) (replicate n a)
All-replicate zero a = tt
All-replicate (suc n) a = (refl, All-replicate n a)

reset-IsInitialPwm : {T H : Type 0} (m : T) (w : PwmWorld T H) → IsInitialPwm (Pwm.reset m w).pwm
unfolding Pwm.reset Pwm.refresh Pwm.update_period_and_duty Pwm.with_period Pwm.disable
    Pwm.update_status_register
reset-IsInitialPwm m w = record { control = refl; freq = refl; duty = refl }

-- A statement about what the bus has only if a pointer is given.
abbrev pub IfGiven : Bool → Type 0 → Type 0
IfGiven true P = P
IfGiven false P = Unit

reset-IsCold : {T H : Type 0} (w : World T H) → IsCold (Timer.reset w).timer
unfolding Timer.reset
reset-IsCold w = elim (Bool-cases (stop w).timer.clock) [
  | inl e ↦ simp e (record { ctrl = refl; count = refl; status = refl })
  | inr e ↦ simp e (record { ctrl = refl; count = refl; status = refl })
]

module _ {R T H W : Type 0} (double : Double W) (m : T) where
  pub record IsFresh (w : BusWorld R T H W) : Type 0 where
    pub no_cycles : w.board.clock.cycles ≡ 0
    pub no_events : w.board.events.events ≡ []
    pub timers_cold : All (λ i. IsCold (w.board.timers i)) w.bus.timers
    pub dmas_idle : All (λ i. IsIdle (w.board.dmas i)) w.bus.dmas
    pub uart_empty : IfGiven w.bus.uart ((w.board.uart.tx_fifo ≡ []) × (w.board.uart.rx_fifo ≡ []))
    pub spi_alone : IfGiven w.bus.spi ((w.board.spi.slave ≡ none) × (w.board.spi.rx_buffer ≡ []))
    pub i2c_alone : IfGiven w.bus.i2c ((w.board.i2c.attached ≡ []) × (w.board.i2c.is_busy ≡ false))
    pub adc_default :
        IfGiven w.bus.adc ((w.board.adc.resolution_bits ≡ 12) × (w.board.adc.sampled ≡ 0))
    pub gpio_initial : IfGiven w.bus.gpio (IsInitialGpio w.board.gpio)
    pub pwm_initial : IfGiven w.bus.pwm (IsInitialPwm w.board.pwm)
    pub no_lines : IfGiven w.bus.interrupts (HasNoLines w.board.interrupts)
    pub memory_zero : IfGiven w.bus.memory (All (λ byte. byte ≡ 0) w.board.memory.storage)

  given-keeps :
      {A : Type 0} (look : Hardware R T H W → A) (g : Bool)
      (f : Hardware R T H W → Hardware R T H W) (b : Hardware R T H W)
      → look (f b) ≡ look b
      → look (if_given double m g f b) ≡ look b
  unfolding if_given
  given-keeps look true f b k = k
  given-keeps look false f b k = refl

  reset_timer-IsCold :
      (s : SystemBus) (b : Hardware R T H W) (i : ℕ)
      → has s.timers i ≡ true
      → IsCold ((for_each (reset_timer double m) s.timers b).timers i)
  reset_timer-IsCold s b i h =
      for_each-reaches (reset_timer double m) (λ b. IsCold (b.timers i)) i
        (λ b. rw (==_self i) (reset-IsCold (world_of b (b.timers i)))) keep s.timers b h
    where
      keep :
          (j : ℕ) (b : Hardware R T H W)
          → IsCold (b.timers i)
          → IsCold ((reset_timer double m j b).timers i)
      keep j b p = elim (Bool-cases (j == i)) [
        | inl e ↦ rw e (reset-IsCold (world_of b (b.timers j)))
        | inr e ↦ rw e p
      ]

  reset_dma-IsIdle :
      (s : SystemBus) (b : Hardware R T H W) (i : ℕ)
      → has s.dmas i ≡ true
      → IsIdle ((for_each (reset_dma double m) s.dmas b).dmas i)
  unfolding Dma.reset
  reset_dma-IsIdle s b i h =
      for_each-reaches (reset_dma double m) (λ b. IsIdle (b.dmas i)) i
        (λ b.
          rw (==_self i) (record { busy = refl; completed = refl; error = refl; none_left = refl }))
        keep s.dmas b h
    where
      keep :
          (j : ℕ) (b : Hardware R T H W)
          → IsIdle (b.dmas i)
          → IsIdle ((reset_dma double m j b).dmas i)
      keep j b p = elim (Bool-cases (j == i)) [
        | inl e ↦ rw e (record { busy = refl; completed = refl; error = refl; none_left = refl })
        | inr e ↦ rw e p
      ]

  -- The resets of the timers leave what is not theirs.
  timers-keep :
      {A : Type 0} (look : Hardware R T H W → A)
      → ((j : ℕ) (b : Hardware R T H W) → look (reset_timer double m j b) ≡ look b)
      → (xs : List ℕ) (b : Hardware R T H W) → look (for_each (reset_timer double m) xs b) ≡ look b
  timers-keep look keep xs b =
      for_each-keeps (reset_timer double m) (λ c. look c ≡ look b) (λ j c p. keep j c ∙ p) xs b refl

  given-does :
      (P : Hardware R T H W → Type 0) (g : Bool) (f : Hardware R T H W → Hardware R T H W)
      (b : Hardware R T H W)
      → ((c : Hardware R T H W) → P (f c))
      → IfGiven g (P (if_given double m g f b))
  unfolding if_given
  given-does P true f b d = d b
  given-does P false f b d = tt

  -- After a reset of the bus the clock is at 0 and no event is pending; every attached timer has
  -- its control, count and status registers at their initial values, and every attached DMA
  -- controller is idle; the GPIO has its registers at their initial values, and the PWM controller
  -- those for control, frequency and duty cycle; the UART has empty queues, the SPI controller no
  -- slave and no data in its buffer, the I2C controller no device and no transaction, and the ADC
  -- controller its default resolution and no sample; the interrupt controller has no registered
  -- line and its enable and pending registers at their initial values, and the memory holds zeros;
  -- each if the bus has it.
  pub reset-IsFresh : (w : BusWorld R T H W) → IsFresh (reset double m w)
  unfolding reset clear Clock.reset Uart.reset Spi.reset I2c.reset Adc.reset Gpio.reset
      Interrupts.reset Memory.clear Uart.update_status_register Spi.update_status_register
      I2c.update_status_register Adc.update_status_register
  reset-IsFresh w = record {
    no_cycles = refl;
    no_events = refl;
    timers_cold = tabulate _ s.timers (λ i h.
        subst (λ t. IsCold (t i))
          (sym (
            given-keeps (λ b. b.timers) _ _ _ refl
            ∙ given-keeps (λ b. b.timers) _ _ _ refl
            ∙ given-keeps (λ b. b.timers) _ _ _ refl
            ∙ given-keeps (λ b. b.timers) _ _ _ refl
            ∙ given-keeps (λ b. b.timers) _ _ _ refl
            ∙ given-keeps (λ b. b.timers) _ _ _ refl
            ∙ given-keeps (λ b. b.timers) _ _ _ refl))
          (reset_timer-IsCold s _ i h));
    dmas_idle = tabulate _ s.dmas (λ i h.
        subst (λ d. IsIdle (d i))
          (sym (
            given-keeps (λ b. b.dmas) _ _ _ refl
            ∙ given-keeps (λ b. b.dmas) _ _ _ refl
            ∙ given-keeps (λ b. b.dmas) _ _ _ refl
            ∙ given-keeps (λ b. b.dmas) _ _ _ refl
            ∙ given-keeps (λ b. b.dmas) _ _ _ refl
            ∙ given-keeps (λ b. b.dmas) _ _ _ refl
            ∙ given-keeps (λ b. b.dmas) _ _ _ refl
            ∙ timers-keep (λ b. b.dmas) (λ j b. refl) s.timers _
            ∙ given-keeps (λ b. b.dmas) _ _ _ refl))
          (reset_dma-IsIdle s w.board i h));
    uart_empty =
        subst (λ u. IfGiven s.uart ((u.tx_fifo ≡ []) × (u.rx_fifo ≡ [])))
          (sym (
            given-keeps (λ b. b.uart) _ _ _ refl
            ∙ given-keeps (λ b. b.uart) _ _ _ refl
            ∙ given-keeps (λ b. b.uart) _ _ _ refl
            ∙ given-keeps (λ b. b.uart) _ _ _ refl
            ∙ given-keeps (λ b. b.uart) _ _ _ refl
            ∙ given-keeps (λ b. b.uart) _ _ _ refl))
          (given-does (λ b. ((b.uart.tx_fifo ≡ []) × (b.uart.rx_fifo ≡ []))) s.uart _ _
            (λ c. (refl, refl)));
    spi_alone =
        subst (λ u. IfGiven s.spi ((u.slave ≡ none) × (u.rx_buffer ≡ [])))
          (sym (
            given-keeps (λ b. b.spi) _ _ _ refl
            ∙ given-keeps (λ b. b.spi) _ _ _ refl
            ∙ given-keeps (λ b. b.spi) _ _ _ refl
            ∙ given-keeps (λ b. b.spi) _ _ _ refl
            ∙ given-keeps (λ b. b.spi) _ _ _ refl))
          (given-does (λ b. ((b.spi.slave ≡ none) × (b.spi.rx_buffer ≡ []))) s.spi _ _
            (λ c. (refl, refl)));
    i2c_alone =
        subst (λ u. IfGiven s.i2c ((u.attached ≡ []) × (u.is_busy ≡ false)))
          (sym (
            given-keeps (λ b. b.i2c) _ _ _ refl
            ∙ given-keeps (λ b. b.i2c) _ _ _ refl
            ∙ given-keeps (λ b. b.i2c) _ _ _ refl
            ∙ given-keeps (λ b. b.i2c) _ _ _ refl))
          (given-does (λ b. ((b.i2c.attached ≡ []) × (b.i2c.is_busy ≡ false))) s.i2c _ _
            (λ c. (refl, refl)));
    adc_default =
        subst (λ u. IfGiven s.adc ((u.resolution_bits ≡ 12) × (u.sampled ≡ 0)))
          (sym (given-keeps (λ b. b.adc) _ _ _ refl ∙ given-keeps (λ b. b.adc) _ _ _ refl))
          (given-does (λ b. ((b.adc.resolution_bits ≡ 12) × (b.adc.sampled ≡ 0))) s.adc _ _
            (λ c. (refl, refl)));
    gpio_initial =
        subst (λ g. IfGiven s.gpio (IsInitialGpio g))
          (sym (
            given-keeps (λ b. b.gpio) _ _ _ refl
            ∙ given-keeps (λ b. b.gpio) _ _ _ refl
            ∙ given-keeps (λ b. b.gpio) _ _ _ refl
            ∙ given-keeps (λ b. b.gpio) _ _ _ refl
            ∙ given-keeps (λ b. b.gpio) _ _ _ refl
            ∙ given-keeps (λ b. b.gpio) _ _ _ refl
            ∙ given-keeps (λ b. b.gpio) _ _ _ refl
            ∙ timers-keep (λ b. b.gpio) (λ j b. refl) s.timers _))
          (given-does (λ b. IsInitialGpio b.gpio) s.gpio _ _
            (λ c. record { directions = refl; outputs = refl; inputs = refl }));
    pwm_initial =
        subst (λ p. IfGiven s.pwm (IsInitialPwm p))
          (sym (
            given-keeps (λ b. b.pwm) _ _ _ refl
            ∙ given-keeps (λ b. b.pwm) _ _ _ refl
            ∙ given-keeps (λ b. b.pwm) _ _ _ refl))
          (given-does (λ b. IsInitialPwm b.pwm) s.pwm _ _ (λ c. reset-IsInitialPwm m (pwm_of c)));
    no_lines =
        subst (λ l. IfGiven s.interrupts (HasNoLines l))
          (sym (given-keeps (λ b. b.interrupts) _ _ _ refl))
          (given-does (λ b. HasNoLines b.interrupts) s.interrupts _ _
            (λ c. record { none_registered = λ i. refl; enables = refl; pendings = refl }));
    memory_zero =
        given-does (λ b. All (λ byte. byte ≡ 0) b.memory.storage) s.memory _ _
          (λ c. All-replicate (length c.memory.storage) 0);
  }
    where
      s : SystemBus
      s = w.bus
