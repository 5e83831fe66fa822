-- ===== src/Hal/Requests.antt =====
-- Requests through the I2C HAL (src/hal/i2c_hal.cpp), and the reads that follow them.
use embedded_firmware_simula.Prelude.{
  ℕ, zero, suc, ◌+◌, ◌%◌, ◌^◌, ◌≡◌, refl, ◌∙◌, sym, ap, true, List, [], ◌∷◌, ◌++◌, some, ◌==◌, inl,
  inr, Bool-cases, ==_self, if◌then◌else◌, throws, runtime_error, Outcome, ok, length, update,
  arith,
}
use mathlib.Core.List.{append_assoc, append-nil}
use embedded_firmware_simula.I2c.{
  enabled, find, set_slave_address, slave_address, asked, update_status_register,
}
use embedded_firmware_simula.I2c
use embedded_firmware_simula.I2c.Device.{I2cDevice}
use embedded_firmware_simula.I2c.Transactions.{
  Open, start-Open, stop-Open, update_same, update_twice,
}
use embedded_firmware_simula.Hal.I2c.{
  HalWorld, addressed, after, asking, available, called, fill, is_attached, queued, read_byte,
  request_from, requested, stopped, with_queue,
}

slave_address-set_slave_address :
    (c : I2c.I2cController) (address : ℕ)
    → slave_address (set_slave_address c address) ≡ address % 2 ^ 7
unfolding slave_address set_slave_address
slave_address-set_slave_address c address = omega arith

module _ {V : Type 0} (device : I2cDevice V) where
  -- What one device alone answers to `n` reads.
  unfoldable pub answers : ℕ → V → V × List ℕ
  answers zero v = (v, [])
  answers (suc n) v =
      let (v', byte) = device.on_read v in let (v'', bytes) = answers n v' in (v'', byte ∷ bytes)

  -- As many calls of `readByte`, with what they give.
  unfoldable pub read_all : ℕ → HalWorld V → HalWorld V × Outcome (List ℕ)
  read_all zero w = (w, ok [])
  read_all (suc n) w =
      let rest = read_all n in
      after (λ w' byte. after (λ w'' bytes. (w'', ok (byte ∷ bytes))) (rest w'))
        (read_byte device w)

  length-answers : (n : ℕ) (v : V) → length (answers n v).1 ≡ n
  unfolding answers
  length-answers zero v = refl
  length-answers (suc n) v = ap suc (length-answers n (device.on_read v).0)

  -- The same with a queue in place of the HAL's own.
  abbrev pub holding : HalWorld V → List ℕ → HalWorld V
  holding w q = record w { hal = with_queue w.hal q }

  read_all-holding :
      (q : List ℕ) (w : HalWorld V) → read_all (length q) (holding w q) ≡ (holding w [], ok q)
  unfolding read_all read_byte
  read_all-holding [] w = refl
  read_all-holding (byte ∷ q) w = rw (read_all-holding q w) refl

  read_all-queue :
      (n : ℕ) (w : HalWorld V) (q : List ℕ)
      → w.hal.rx_queue ≡ q
      → length q ≡ n
      → read_all n w ≡ (holding w [], ok q)
  read_all-queue n w q r l =
      ap (λ k. read_all k w) (sym l)
      ∙ ap (λ z. read_all (length q) (holding w z)) r
      ∙ read_all-holding q w

  -- A read with an open transaction asks the device.
  asked-Open :
      (w : HalWorld V) (d : ℕ)
      → Open device w.bus d
      → let (v, byte) = device.on_read (w.bus.devices d) in
        (w' : HalWorld V) × (called w (I2c.read_byte device w.bus) ≡ (w', ok byte))
        × Open device w'.bus d
        × (w'.hal ≡ w.hal)
        × (w'.bus.devices ≡ update w.bus.devices d v)
  unfolding I2c.read_byte enabled update_status_register
  asked-Open w d o = (
    record w { bus = (asked device w.bus d).0 },
    simp (o.on, o.empty, o.busy, o.active) refl,
    record { on = o.on; empty = o.empty; busy = o.busy; active = o.active },
    refl,
    refl,
  )

  fill-Open :
      (n : ℕ) (w : HalWorld V) (count d : ℕ)
      → Open device w.bus d
      → let (v, bytes) = answers n (w.bus.devices d) in
        (w' : HalWorld V) × (fill device n w count ≡ (w', ok (count + n)))
        × Open device w'.bus d
        × (w'.hal ≡ with_queue w.hal (w.hal.rx_queue ++ bytes))
        × (w'.bus.devices d ≡ v)
        × ((x : ℕ) → w'.bus.devices x ≡ update w.bus.devices d v x)
  unfolding fill answers
  fill-Open zero w count d o = (
    w,
    ap (λ k. (w, ok k)) (omega arith),
    o,
    ap (with_queue w.hal) (sym (append-nil w.hal.rx_queue)),
    refl,
    update_same w.bus.devices d,
  )
  fill-Open (suc n) w count d o =
      let (w1, r, o1, h1, m) = asked-Open w d o in
      let (v, byte) = device.on_read (w.bus.devices d) in
      let own : w1.bus.devices d ≡ v = rw m (rw (==_self d) refl) in
      let (w2, f, o2, h2, e, all) = fill-Open n (queued w1 byte) (count + 1) d o1 in
      let (last, bytes) = answers n v in
      let ended : answers n (w1.bus.devices d) ≡ answers n v = ap (answers n) own in
      (
        w2,
        rw (r, f) (ap (λ k. (w2, ok k)) (omega arith)),
        o2,
        h2
            ∙ ap (λ a. with_queue w1.hal ((w1.hal.rx_queue ++ byte ∷ []) ++ a.1)) ended
            ∙ ap (λ h. with_queue h ((h.rx_queue ++ byte ∷ []) ++ bytes)) h1
            ∙ ap (with_queue w.hal) (append_assoc w.hal.rx_queue (byte ∷ []) bytes),
        e ∙ ap (λ a. a.0) ended,
        λ x.
            all x
            ∙ ap (λ a. update w1.bus.devices d a.0 x) ended
            ∙ ap (λ g. update g d last x) m
            ∙ update_twice w.bus.devices d v last x,
      )

  request_from-attached :
      (w : HalWorld V) (address n : ℕ)
      → is_attached w.hal ≡ true
      → request_from device w address n ≡ asking device n (addressed (holding w []) address)
  unfolding request_from
  request_from-attached w address n given =
      ap
        (λ b.
          if b
          then asking device n (addressed (holding w []) address)
          else (w, throws runtime_error))
        given

  -- A request of `n` bytes through the HAL, of an enabled controller with nothing received and an
  -- attached device of the address that acknowledges the start, returns `n`, and then the HAL has
  -- `n` bytes available. As many reads give the answers of the first such device alone, in order,
  -- and use them up. That device hears the start, `n` reads and the stop; every other device stays
  -- as it was.
  pub request_from-read_all :
      (w : HalWorld V) (address n d x : ℕ)
      → is_attached w.hal ≡ true
      → enabled w.bus.i2c ≡ true
      → w.bus.i2c.rx_buffer ≡ []
      → find device w.bus.devices w.bus.i2c.attached (address % 2 ^ 7) ≡ some d
      → (device.on_start (w.bus.devices d) true).1 ≡ true
      → let (v, bytes) = answers n (device.on_start (w.bus.devices d) true).0 in
        (w' : HalWorld V) × (request_from device w address n ≡ (w', ok n))
        × (available w'.hal ≡ n)
        × (read_all n w' ≡ (holding w' [], ok bytes))
        × (w'.bus.devices x ≡ update w.bus.devices d (device.on_stop v) x)
  unfolding available set_slave_address enabled
  request_from-read_all w address n d x given on empty found ack =
      let to_device : find device w.bus.devices w.bus.i2c.attached
            (slave_address (set_slave_address w.bus.i2c address))
          ≡ some d =
        ap (find device w.bus.devices w.bus.i2c.attached)
          (slave_address-set_slave_address w.bus.i2c address)
        ∙ found in
      let (b1, s, o1, m) =
        start-Open device (addressed (holding w []) address).bus d true on empty to_device ack in
      let begun = (device.on_start (w.bus.devices d) true).0 in
      let own : b1.devices d ≡ begun = rw m (rw (==_self d) refl) in
      let (w2, f, o2, h, e, all) = fill-Open n (record (holding w []) { bus = b1 }) 0 d o1 in
      let full : w2.hal.rx_queue ≡ (answers n begun).1 =
        ap (λ k. k.rx_queue) h ∙ ap (λ v. (answers n v).1) own in
      let long = length-answers n begun in
      (
        stopped device w2,
        request_from-attached w address n given
            ∙ ap (λ r. after (requested device n) (called (addressed (holding w []) address) r)) s
            ∙ ap (after (λ w' count. (stopped device w', ok count))) f
            ∙ ap (λ k. (stopped device w2, ok k)) (omega arith),
        ap length full ∙ long,
        read_all-queue n (stopped device w2) (answers n begun).1 full long,
        stop-Open device w2.bus d x o2 ∙ elim (Bool-cases (d == x)) [
          | inl q ↦ rw q (ap device.on_stop (e ∙ ap (λ v. (answers n v).0) own))
          | inr q ↦ rw q (rw q at (all x) ∙ rw q at (ap (λ g. g x) m))
        ],
      )
