-- ===== src/Uart/Fifo.antt =====
-- The two queues of the UART (src/drivers/uart/uart.cpp) under interleavings of their two ends.
use mathlib.Core.List.{append_assoc}
use embedded_firmware_simula.Prelude.{
  ℕ, ◌≡◌, refl, sym, ap, ◌∙◌, Bool, true, false, List, [], ◌∷◌, ◌++◌, Outcome, ok, throws, arith,
  require, runtime_error, underflow_error, invalid_argument, ◌↔◌, ◌>>◌, Bool-cases, inl, inr,
}
use embedded_firmware_simula.Uart.{
  Uart, enabled, update_status_register, enable, disable, write_byte, read_byte, take_rx,
  push_received_byte, pop_tx_byte, take_tx, set_baud_rate, reset,
}

-- The calls of both ends.
pub data Call : Type 0 where
  enables disables reads pops resets : Call
  writes receives sets_baud : ℕ → Call

-- A UART with the bytes that have gone through each of the four calls since the last reset, which
-- empties the queues.
pub record Line : Type 0 where
  pub uart : Uart
  pub written : List ℕ
  pub popped : List ℕ
  pub received : List ℕ
  pub given : List ℕ

abbrev wrote : Line → ℕ → Outcome Uart → Line
wrote l byte (ok v) = record l { uart = v; written = l.written ++ byte ∷ [] }
wrote l byte (throws e) = l

abbrev receiving : Line → ℕ → Outcome Uart → Line
receiving l byte (ok v) = record l { uart = v; received = l.received ++ byte ∷ [] }
receiving l byte (throws e) = l

abbrev popping : Line → Outcome (Uart × ℕ) → Line
popping l (ok (v, byte)) = record l { uart = v; popped = l.popped ++ byte ∷ [] }
popping l (throws e) = l

abbrev giving : Line → Outcome (Uart × ℕ) → Line
giving l (ok (v, byte)) = record l { uart = v; given = l.given ++ byte ∷ [] }
giving l (throws e) = l

abbrev rebaud : Line → Outcome Uart → Line
rebaud l (ok v) = record l { uart = v }
rebaud l (throws e) = l

unfoldable pub step : Line → Call → Line
step l enables = record l { uart = enable l.uart }
step l disables = record l { uart = disable l.uart }
step l (writes byte) = wrote l byte (write_byte l.uart byte)
step l pops = popping l (pop_tx_byte l.uart)
step l (receives byte) = receiving l byte (push_received_byte l.uart byte)
step l reads = giving l (read_byte l.uart)
step l resets = record { uart = reset l.uart; written = []; popped = []; received = []; given = [] }
step l (sets_baud baud) = rebaud l (set_baud_rate l.uart baud)

unfoldable pub run : Line → List Call → Line
unfolding step
run l [] = l
run l (c ∷ cs) = run (step l c) cs

pub record InOrder (l : Line) : Type 0 where
  pub sent : l.popped ++ l.uart.tx_fifo ≡ l.written
  pub delivered : l.given ++ l.uart.rx_fifo ≡ l.received

step-InOrder : (l : Line) (c : Call) → InOrder l → InOrder (step l c)
unfolding step update_status_register enable disable set_baud_rate write_byte push_received_byte
    read_byte pop_tx_byte reset
step-InOrder l enables o = record { sent = o.sent; delivered = o.delivered }
step-InOrder l disables o = record { sent = o.sent; delivered = o.delivered }
step-InOrder l resets o = record { sent = refl; delivered = refl }
step-InOrder l (sets_baud baud) o = ground arith
step-InOrder l (writes byte) o = elim (Bool-cases (enabled l.uart)) [
  | inl e ↦ rw e (record {
    sent = sym (append_assoc l.popped l.uart.tx_fifo (byte ∷ [])) ∙ ap (λ b. b ++ byte ∷ []) o.sent;
    delivered = o.delivered;
  })
  | inr e ↦ rw e o
]
step-InOrder l (receives byte) o = elim (Bool-cases (enabled l.uart)) [
  | inl e ↦ rw e (record {
    sent = o.sent;
    delivered =
        sym (append_assoc l.given l.uart.rx_fifo (byte ∷ []))
        ∙ ap (λ b. b ++ byte ∷ []) o.delivered;
  })
  | inr e ↦ rw e o
]
step-InOrder l pops o = taken l.uart.tx_fifo o.sent
  where
    taken : (tx : List ℕ) → l.popped ++ tx ≡ l.written → InOrder (popping l (take_tx l.uart tx))
    taken [] h = o
    taken (byte ∷ rest) h = record {
      sent = append_assoc l.popped (byte ∷ []) rest ∙ h;
      delivered = o.delivered;
    }
step-InOrder l reads o = taken (enabled l.uart) l.uart.rx_fifo o.delivered
  where
    taken :
        (on : Bool) (rx : List ℕ)
        → l.given ++ rx ≡ l.received
        → InOrder (giving l (do require on runtime_error; take_rx l.uart rx))
    taken false rx h = o
    taken true [] h = o
    taken true (byte ∷ rest) h = record {
      sent = o.sent;
      delivered = append_assoc l.given (byte ∷ []) rest ∙ h;
    }

-- Every interleaving of driver and line calls, resets included, keeps that the bytes popped since
-- the last reset followed by those still queued are the bytes written since then, in order, and
-- likewise the bytes read and the bytes received.
pub run-InOrder : (l : Line) (cs : List Call) → InOrder l → InOrder (run l cs)
unfolding run
run-InOrder l [] o = o
run-InOrder l (c ∷ cs) o = run-InOrder (step l c) cs (step-InOrder l c o)

-- Which calls throw, and when: writing, reading and receiving on a disabled UART, reading with
-- nothing received, taking from an empty transmit queue, and a baud rate of zero.
pub uart_access_fails :
    (u : Uart) (byte baud : ℕ)
    → ((write_byte u byte ≡ throws runtime_error) ↔ (enabled u ≡ false))
      × ((push_received_byte u byte ≡ throws runtime_error) ↔ (enabled u ≡ false))
      × ((read_byte u ≡ throws runtime_error) ↔ (enabled u ≡ false))
      × ((read_byte u ≡ throws underflow_error) ↔ ((enabled u ≡ true) × (u.rx_fifo ≡ [])))
      × ((pop_tx_byte u ≡ throws underflow_error) ↔ (u.tx_fifo ≡ []))
      × ((set_baud_rate u baud ≡ throws invalid_argument) ↔ (baud ≡ 0))
unfolding write_byte push_received_byte read_byte pop_tx_byte set_baud_rate
uart_access_fails u byte baud =
    (ground arith, ground arith, ground arith, ground arith, ground arith, ground arith)
