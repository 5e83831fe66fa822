-- ===== src/Firmware/Echoing.antt =====
-- What the echo application sends back (src/firmware/uart_echo_firmware.cpp).
use mathlib.Core.List.{append_assoc, append-nil}
use embedded_firmware_simula.Prelude.{
  ℕ, zero, suc, ◌+◌, ◌%◌, ◌^◌, ◌≤◌, ◌<◌, ◌≡◌, refl, ◌∙◌, sym, ap, true, false, List, [], ◌∷◌, ◌++◌,
  ok, and_then, length, arith,
}
use embedded_firmware_simula.Uart
use embedded_firmware_simula.Hal.Uart as HalUart
use embedded_firmware_simula.Firmware.UartEcho.{EchoWorld, echo_one, echo_loop, update}

-- The application's HAL has a UART, which is enabled and has received the bytes that wait.
record Waits (w : EchoWorld) (q : List ℕ) : Type 0 where
  pub given : w.hal.attached ≡ true
  pub on : Uart.enabled w.hal.uart ≡ true
  pub queue : w.hal.uart.rx_fifo ≡ q

echo_one-Waits :
    (w : EchoWorld) (byte : ℕ) (q : List ℕ)
    → Waits w (byte ∷ q)
    → (w' : EchoWorld) × (echo_one w ≡ (w', ok tt))
      × Waits w' q
      × (w'.hal.uart.tx_fifo ≡ w.hal.uart.tx_fifo ++ byte ∷ [])
      × (w'.app.echo_count ≡ (w.app.echo_count + 1) % 2 ^ 64)
unfolding echo_one HalUart.read_byte HalUart.write_byte Uart.read_byte Uart.write_byte Uart.enabled
    Uart.update_status_register
echo_one-Waits w byte q h = (
  (echo_one w).0,
  simp (h.given, h.on, h.queue) refl,
  record {
    given = simp (h.given, h.on, h.queue) refl;
    on = simp (h.given, h.on, h.queue) refl;
    queue = simp (h.given, h.on, h.queue) refl;
  },
  simp (h.given, h.on, h.queue) refl,
  simp (h.given, h.on, h.queue) refl,
)

-- The loop is over when no byte waits, however many turns are left.
echo_loop-nothing : (n : ℕ) (w : EchoWorld) → Waits w [] → echo_loop n w ≡ (w, ok tt)
unfolding echo_loop HalUart.has_data Uart.has_received_data
echo_loop-nothing zero w h = refl
echo_loop-nothing (suc n) w h = simp (h.given, h.queue) refl

-- While a byte waits, the loop takes a turn.
echo_loop-turn :
    (n : ℕ) (w : EchoWorld) (byte : ℕ) (q : List ℕ)
    → Waits w (byte ∷ q)
    → echo_loop (suc n) w ≡ and_then (echo_loop n) (echo_one w)
unfolding echo_loop HalUart.has_data Uart.has_received_data
echo_loop-turn n w byte q h = simp (h.given, h.queue) refl

echo_loop-Waits :
    (q : List ℕ) (n : ℕ) (w : EchoWorld)
    → length q ≤ n
    → w.app.echo_count < 2 ^ 64
    → Waits w q
    → (w' : EchoWorld) × (echo_loop n w ≡ (w', ok tt))
      × Waits w' []
      × (w'.hal.uart.tx_fifo ≡ w.hal.uart.tx_fifo ++ q)
      × (w'.app.echo_count ≡ (w.app.echo_count + length q) % 2 ^ 64)
echo_loop-Waits [] n w l c h =
    (w, echo_loop-nothing n w h, h, sym (append-nil w.hal.uart.tx_fifo), omega arith)
echo_loop-Waits (byte ∷ q) zero w l c h = absurd (omega arith)
echo_loop-Waits (byte ∷ q) (suc n) w l c h =
    let (w1, e1, h1, t1, c1) = echo_one-Waits w byte q h in
    let (w2, e2, h2, t2, c2) = echo_loop-Waits q n w1 (omega arith) (omega arith) h1 in
    (
      w2,
      echo_loop-turn n w byte q h ∙ ap (and_then (echo_loop n)) e1 ∙ e2,
      h2,
      t2 ∙ ap (λ t. t ++ q) t1 ∙ append_assoc w.hal.uart.tx_fifo (byte ∷ []) q,
      omega arith,
    )

-- An update of an application that is initialized and not shut down, with an enabled UART, does not
-- throw, and stops with nothing left to read: every byte that waited is behind those already to be
-- sent, in the order of arrival, and the count of echoes has grown by their number, modulo 2 ^ 64.
pub update-echoes :
    (w : EchoWorld)
    → w.app.initialized ≡ true
    → w.app.is_shutdown ≡ false
    → w.hal.attached ≡ true
    → Uart.enabled w.hal.uart ≡ true
    → w.app.echo_count < 2 ^ 64
    → (w' : EchoWorld) × (update w ≡ (w', ok tt))
      × (HalUart.has_data w'.hal ≡ false)
      × (w'.hal.uart.tx_fifo ≡ w.hal.uart.tx_fifo ++ w.hal.uart.rx_fifo)
      × (w'.app.echo_count ≡ (w.app.echo_count + length w.hal.uart.rx_fifo) % 2 ^ 64)
unfolding update Uart.rx_fifo_size HalUart.has_data Uart.has_received_data
update-echoes w started running given on below =
    let q = w.hal.uart.rx_fifo in
    let waits : Waits w q = record { given = given; on = on; queue = refl } in
    let (w', e, h, t, c) = echo_loop-Waits q (length q) w (omega arith) below waits in
    (w', simp (started, running) e, simp (h.given, h.queue) refl, t, c)
