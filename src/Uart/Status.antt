-- ===== src/Uart/Status.antt =====
-- The STATUS register of the UART (src/drivers/uart/uart.cpp) under driver calls.
use embedded_firmware_simula.Prelude.{
  is_empty, ℕ, ◌≡◌, refl, Bool, true, false, not, List, [], ◌∷◌, Outcome, ok, throws, arith,
  require, runtime_error, ◌>>◌, Bool-cases, inl, inr,
}
use embedded_firmware_simula.Prelude.Bits.{test_bit}
use embedded_firmware_simula.Uart.{
  Uart, enabled, update_status_register, status_value, created, enable, disable, write_byte,
  read_byte, push_received_byte, set_baud_rate, pop_tx_byte, reset, take_rx, take_tx,
}

pub record IsTruthful (u : Uart) : Type 0 where
  pub tx_empty_bit : test_bit u.status_register.value 0 ≡ is_empty u.tx_fifo
  pub rx_avail_bit : test_bit u.status_register.value 1 ≡ not (is_empty u.rx_fifo)
  pub enabled_bit : test_bit u.status_register.value 2 ≡ enabled u

-- The three bits of the computed value are the three tests.
status_value_bits :
    (t r o : Bool)
    → (test_bit (status_value t r o) 0 ≡ t)
      × (test_bit (status_value t r o) 1 ≡ not r)
      × (test_bit (status_value t r o) 2 ≡ o)
unfolding test_bit
status_value_bits true true true = (refl, refl, refl)
status_value_bits true true false = (refl, refl, refl)
status_value_bits true false true = (refl, refl, refl)
status_value_bits true false false = (refl, refl, refl)
status_value_bits false true true = (refl, refl, refl)
status_value_bits false true false = (refl, refl, refl)
status_value_bits false false true = (refl, refl, refl)
status_value_bits false false false = (refl, refl, refl)

pub update_status_register-IsTruthful : (u : Uart) → IsTruthful (update_status_register u)
unfolding update_status_register
update_status_register-IsTruthful u =
    let bits = status_value_bits (is_empty u.tx_fifo) (is_empty u.rx_fifo) (enabled u) in
    record { tx_empty_bit = bits.0; rx_avail_bit = bits.1; enabled_bit = bits.2 }

pub data Call : Type 0 where
  enables disables reads pops resets : Call
  writes receives sets_baud : ℕ → Call

-- A call that throws leaves the UART as it was.
abbrev after : Uart → Outcome Uart → Uart
after u (ok v) = v
after u (throws e) = u

abbrev after_byte : Uart → Outcome (Uart × ℕ) → Uart
after_byte u (ok (v, byte)) = v
after_byte u (throws e) = u

unfoldable pub step : Uart → Call → Uart
step u enables = enable u
step u disables = disable u
step u reads = after_byte u (read_byte u)
step u pops = after_byte u (pop_tx_byte u)
step u resets = reset u
step u (writes byte) = after u (write_byte u byte)
step u (receives byte) = after u (push_received_byte u byte)
step u (sets_baud baud) = after u (set_baud_rate u baud)

unfoldable pub run : Uart → List Call → Uart
unfolding step
run u [] = u
run u (c ∷ cs) = run (step u c) cs

set_baud_rate-IsTruthful :
    (u : Uart) (baud : ℕ) → IsTruthful u → IsTruthful (after u (set_baud_rate u baud))
unfolding set_baud_rate enabled
set_baud_rate-IsTruthful u baud t = ground arith

step-IsTruthful : (u : Uart) (c : Call) → IsTruthful u → IsTruthful (step u c)
unfolding step enable disable read_byte pop_tx_byte reset write_byte push_received_byte
step-IsTruthful u enables t = update_status_register-IsTruthful _
step-IsTruthful u disables t = update_status_register-IsTruthful _
step-IsTruthful u reads t = taken (enabled u) u.rx_fifo
  where
    taken :
        (on : Bool) (rx : List ℕ)
        → IsTruthful (after_byte u (do require on runtime_error; take_rx u rx))
    taken false rx = t
    taken true [] = t
    taken true (byte ∷ rest) = update_status_register-IsTruthful _
step-IsTruthful u pops t = taken u.tx_fifo
  where
    taken : (tx : List ℕ) → IsTruthful (after_byte u (take_tx u tx))
    taken [] = t
    taken (byte ∷ rest) = update_status_register-IsTruthful _
step-IsTruthful u resets t = update_status_register-IsTruthful _
step-IsTruthful u (writes byte) t = elim (Bool-cases (enabled u)) [
  | inl e ↦ rw e (update_status_register-IsTruthful _)
  | inr e ↦ rw e t
]
step-IsTruthful u (receives byte) t = elim (Bool-cases (enabled u)) [
  | inl e ↦ rw e (update_status_register-IsTruthful _)
  | inr e ↦ rw e t
]
step-IsTruthful u (sets_baud baud) t = set_baud_rate-IsTruthful u baud t

-- After any driver calls on a new UART, whether they succeed or throw, the STATUS register says
-- whether the transmit queue is empty, whether received data waits, and whether it is enabled.
pub run-IsTruthful :
    (base baud : ℕ) (cs : List Call)
    → IsTruthful (run (update_status_register (created base baud)) cs)
unfolding run
run-IsTruthful base baud cs =
    keep (update_status_register (created base baud)) cs (update_status_register-IsTruthful _)
  where
    keep : (u : Uart) (cs : List Call) → IsTruthful u → IsTruthful (run u cs)
    keep u [] t = t
    keep u (c ∷ cs) t = keep (step u c) cs (step-IsTruthful u c t)
