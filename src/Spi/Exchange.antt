-- ===== src/Spi/Exchange.antt =====
-- Bytes written to an SPI device and read back (src/drivers/spi/spi_controller.cpp and
-- include/drivers/spi/spi_device.hpp).
use mathlib.Core.List.{append_assoc, append-nil}
use embedded_firmware_simula.Prelude.{
  ℕ, zero, suc, ◌+◌, ◌≤◌, ◌<◌, ◌≡◌, refl, ◌∙◌, sym, ap, ◌↔◌, true, false, List, [], ◌∷◌, ◌++◌, some,
  Outcome, ok, throws, arith, length, take, replicate, runtime_error, underflow_error,
  invalid_argument, ◌>>=◌, ==_self, length-append,
}
use embedded_firmware_simula.Spi.{
  SpiController, SpiWorld, enabled, has_data, take_rx, shift_byte, update_status_register,
  write_byte, read_byte, transfer, set_mode, set_clock_divider,
}
use embedded_firmware_simula.Spi.Device.{SpiDevice, SimulatedSpiDevice, simulated}
use embedded_firmware_simula.Spi.Device

-- `writeByte` for each byte, up to one that throws.
unfoldable pub write_all :
    SpiWorld SimulatedSpiDevice → List ℕ → Outcome (SpiWorld SimulatedSpiDevice)
write_all w [] = ok w
write_all w (byte ∷ bytes) = do w' ← write_byte simulated w byte; write_all w' bytes

-- `readByte` so many times, up to one that throws.
unfoldable pub read_many : SpiController → ℕ → Outcome (SpiController × List ℕ)
read_many c zero = ok (c, [])
read_many c (suc n) = do
  (c', byte) ← read_byte c
  (c'', bytes) ← read_many c' n
  ok (c'', byte ∷ bytes)

-- The next answers of a device with the given queue and default.
replies : ℕ → List ℕ → ℕ → List ℕ
replies d q zero = []
replies d [] (suc n) = d ∷ replies d [] n
replies d (x ∷ q) (suc n) = x ∷ replies d q n

replies-take : (d n m : ℕ) (q : List ℕ) → n ≤ m → replies d q n ≡ take n (q ++ replicate m d)
unfolding replies
replies-take d zero m q h = refl
replies-take d (suc n) zero [] h = absurd (omega arith)
replies-take d (suc n) (suc m) [] h = ap (λ xs. d ∷ xs) (replies-take d n m [] (omega arith))
replies-take d (suc n) m (x ∷ q) h = ap (λ xs. x ∷ xs) (replies-take d n m q (omega arith))

-- An enabled controller with a device, what it has buffered, and what the device is to answer and
-- has received.
record Attached (w : SpiWorld SimulatedSpiDevice) (s d : ℕ) (buffer queue heard : List ℕ)
    : Type 0 where
  pub on : enabled w.spi ≡ true
  pub slave_is : w.spi.slave ≡ some s
  pub buffered : w.spi.rx_buffer ≡ buffer
  pub queued : (w.devices s).response_queue ≡ queue
  pub default_is : (w.devices s).default_response_byte ≡ d
  pub received : (w.devices s).received_bytes ≡ heard

first_reply : ℕ → List ℕ → ℕ
first_reply d [] = d
first_reply d (x ∷ q) = x

rest_queue : List ℕ → List ℕ
rest_queue [] = []
rest_queue (x ∷ q) = q

abbrev wrote : SpiWorld SimulatedSpiDevice → ℕ → SpiWorld SimulatedSpiDevice
wrote w byte = (shift_byte simulated w byte (λ answer. answer ∷ [])).0

write-ok :
    (w : SpiWorld SimulatedSpiDevice) (byte : ℕ)
    → enabled w.spi ≡ true
    → write_byte simulated w byte ≡ ok (wrote w byte)
unfolding write_byte
write-ok w byte on = rw on refl

wrote-Attached :
    (w : SpiWorld SimulatedSpiDevice) (s d byte : ℕ) (buffer queue heard : List ℕ)
    → Attached w s d buffer queue heard
    → Attached
        (wrote w byte)
        s
        d
        (buffer ++ first_reply d queue ∷ [])
        (rest_queue queue)
        (heard ++ byte ∷ [])
unfolding update_status_register enabled Device.transfer first_reply rest_queue
wrote-Attached w s d byte buffer [] heard a = record {
  on = a.on;
  slave_is = a.slave_is;
  buffered = simp (a.slave_is, a.queued, a.buffered, a.default_is) refl;
  queued = simp (a.slave_is, a.queued, ==_self s) refl;
  default_is = simp (a.slave_is, a.queued, ==_self s, a.default_is) refl;
  received = simp (a.slave_is, a.queued, ==_self s, a.received) refl;
}
wrote-Attached w s d byte buffer (x ∷ q) heard a = record {
  on = a.on;
  slave_is = a.slave_is;
  buffered = simp (a.slave_is, a.queued, a.buffered) refl;
  queued = simp (a.slave_is, a.queued, ==_self s) refl;
  default_is = simp (a.slave_is, a.queued, ==_self s, a.default_is) refl;
  received = simp (a.slave_is, a.queued, ==_self s, a.received) refl;
}

-- Some bytes written, with the answers they get.
write_all-Attached :
    (w : SpiWorld SimulatedSpiDevice) (s d : ℕ) (bytes buffer queue heard : List ℕ)
    → Attached w s d buffer queue heard
    → (w' : SpiWorld SimulatedSpiDevice) × (write_all w bytes ≡ ok w')
      × (enabled w'.spi ≡ true)
      × (w'.spi.rx_buffer ≡ buffer ++ replies d queue (length bytes))
      × ((w'.devices s).received_bytes ≡ heard ++ bytes)
unfolding write_all replies first_reply rest_queue
write_all-Attached w s d [] buffer queue heard a =
    (w, refl, a.on, a.buffered ∙ sym (append-nil buffer), a.received ∙ sym (append-nil heard))
write_all-Attached w s d (byte ∷ bytes) buffer [] heard a =
    let (w', o, e, b, h) =
      write_all-Attached (wrote w byte) s d bytes _ _ _
        (wrote-Attached w s d byte buffer [] heard a) in
    (w', rw (write-ok w byte a.on) o, e, b ∙ append_assoc buffer _ _, h ∙ append_assoc heard _ _)
write_all-Attached w s d (byte ∷ bytes) buffer (x ∷ q) heard a =
    let (w', o, e, b, h) =
      write_all-Attached (wrote w byte) s d bytes _ _ _
        (wrote-Attached w s d byte buffer (x ∷ q) heard a) in
    (w', rw (write-ok w byte a.on) o, e, b ∙ append_assoc buffer _ _, h ∙ append_assoc heard _ _)

read-front :
    (c : SpiController) (byte : ℕ) (rest : List ℕ)
    → enabled c ≡ true
    → c.rx_buffer ≡ byte ∷ rest
    → (c' : SpiController) × (read_byte c ≡ ok (c', byte))
      × (enabled c' ≡ true)
      × (c'.rx_buffer ≡ rest)
unfolding read_byte has_data enabled update_status_register
read-front c byte rest on b = ((take_rx c (byte ∷ rest)).0, simp (on, b) refl, on, refl)

-- A buffer is read from its front.
read_many-buffer :
    (c : SpiController) (bytes : List ℕ)
    → enabled c ≡ true
    → c.rx_buffer ≡ bytes
    → (c' : SpiController) × (read_many c (length bytes) ≡ ok (c', bytes))
unfolding read_many
read_many-buffer c [] on b = (c, refl)
read_many-buffer c (byte ∷ rest) on b =
    let (c', r, on', b') = read-front c byte rest on b in
    let (c'', o) = read_many-buffer c' rest on' b' in (c'', rw (r, o) refl)

length-replies : (d n : ℕ) (q : List ℕ) → length (replies d q n) ≡ n
unfolding replies
length-replies d zero q = refl
length-replies d (suc n) [] = ap suc (length-replies d n [])
length-replies d (suc n) (x ∷ q) = ap suc (length-replies d n q)

-- Bytes written to an enabled controller with a simulated device, and as many read back, after
-- those that were buffered before. No call throws, the device has received the bytes in order
-- after those before, and the bytes read are those that were buffered, then the device's queued
-- responses in order, and then its default response.
pub read_many-write_all :
    (w : SpiWorld SimulatedSpiDevice) (s : ℕ) (bytes : List ℕ)
    → enabled w.spi ≡ true
    → w.spi.slave ≡ some s
    → let d = w.devices s in
      let n = length bytes in
      (w' : SpiWorld SimulatedSpiDevice) × (c : SpiController) × (write_all w bytes ≡ ok w')
      × ((w'.devices s).received_bytes ≡ d.received_bytes ++ bytes)
      × (read_many w'.spi (length w.spi.rx_buffer + n)
          ≡ ok (
            c,
            w.spi.rx_buffer ++ take n (d.response_queue ++ replicate n d.default_response_byte),
          ))
read_many-write_all w s bytes on slave_is =
    let d = w.devices s in
    let n = length bytes in
    let buffer = w.spi.rx_buffer in
    let answers = replies d.default_response_byte d.response_queue n in
    let (w', o, e, b, h) =
      write_all-Attached w s d.default_response_byte bytes buffer d.response_queue d.received_bytes
        (record {
          on = on;
          slave_is = slave_is;
          buffered = refl;
          queued = refl;
          default_is = refl;
          received = refl;
        }) in
    let (c, r) = read_many-buffer w'.spi (buffer ++ answers) e b in
    let many : length (buffer ++ answers) ≡ length buffer + n =
      length-append buffer answers
      ∙ ap (λ k. length buffer + k) (length-replies d.default_response_byte n d.response_queue) in
    (
      w',
      c,
      o,
      h,
      ap (read_many w'.spi) (sym many)
          ∙ r
          ∙ ap (λ bs. ok (c, buffer ++ bs))
              (replies-take d.default_response_byte n n d.response_queue (omega arith)),
    )

-- Which calls throw, and when: transfers, writes and reads on a disabled controller, reads with no
-- data, a clock divider of 0 and a mode above 3.
pub spi_access_fails :
    {V : Type 0} (device : SpiDevice V) (w : SpiWorld V) (value : ℕ)
    → ((transfer device w value ≡ throws runtime_error) ↔ (enabled w.spi ≡ false))
      × ((write_byte device w value ≡ throws runtime_error) ↔ (enabled w.spi ≡ false))
      × ((read_byte w.spi ≡ throws runtime_error) ↔ (enabled w.spi ≡ false))
      × ((read_byte w.spi ≡ throws underflow_error)
          ↔ ((enabled w.spi ≡ true) × (w.spi.rx_buffer ≡ []) × (w.spi.rx_has_data ≡ false)))
      × ((set_clock_divider w.spi value ≡ throws invalid_argument) ↔ (value ≡ 0))
      × ((set_mode w.spi value ≡ throws invalid_argument) ↔ (3 < value))
unfolding transfer write_byte read_byte has_data set_clock_divider set_mode
spi_access_fails device w value =
    (ground arith, ground arith, ground arith, ground arith, ground arith, ground arith)
