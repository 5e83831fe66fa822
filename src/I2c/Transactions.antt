-- ===== src/I2c/Transactions.antt =====
-- Whole transactions on the I2C bus (src/drivers/i2c/i2c_controller.cpp), and the calls that throw.
use embedded_firmware_simula.Prelude.{
  ℕ, ◌≡◌, refl, ◌∙◌, sym, ap, ◌↔◌, Bool, true, false, List, [], ◌∷◌, none, some, ◌==◌, Outcome, ok,
  throws, arith, runtime_error, underflow_error, ◌>>=◌, Bool-cases, inl, inr, ==_self, ==_iff,
  update, ◌⊎◌,
}
use embedded_firmware_simula.I2c.{
  I2cWorld, enabled, slave_address, update_status_register, find, address_device, start, stop,
  stop_device, written, write_device, asked, write_byte, read_byte,
}
use embedded_firmware_simula.I2c.Device.{I2cDevice}

-- A byte to send, or one to ask for, and what comes back.
pub data Exchange : Type 0 where
  sends : ℕ → Exchange
  asks : Exchange

pub data Reply : Type 0 where
  acked : Bool → Reply
  got : ℕ → Reply

-- An array written twice at one place.
pub update_twice :
    {V : Type 0} (f : ℕ → V) (d : ℕ) (u v : V) (x : ℕ)
    → update (update f d u) d v x ≡ update f d v x
update_twice f d u v x = elim (Bool-cases (d == x)) [ inl e ↦ rw e refl | inr e ↦ rw e refl ]

-- An array written with what it holds.
pub update_same : {V : Type 0} (f : ℕ → V) (d x : ℕ) → f x ≡ update f d (f d) x
update_same f d x = elim (Bool-cases (d == x)) [
  | inl e ↦ rw e (ap f (sym ((==_iff d x).0 e)))
  | inr e ↦ rw e refl
]

module _ {V : Type 0} (device : I2cDevice V) where
  unfoldable pub exchange : I2cWorld V → Exchange → Outcome (I2cWorld V × Reply)
  exchange w (sends byte) = do (w', ack) ← write_byte device w byte; ok (w', acked ack)
  exchange w asks = do (w', byte) ← read_byte device w; ok (w', got byte)

  unfoldable pub talk : I2cWorld V → List Exchange → Outcome (I2cWorld V × List Reply)
  talk w [] = ok (w, [])
  talk w (e ∷ es) = do
    (w', reply) ← exchange w e
    (w'', replies) ← talk w' es
    ok (w'', reply ∷ replies)

  -- `start`, the bytes in turn, and `stop`.
  unfoldable pub transaction : I2cWorld V → Bool → List Exchange → Outcome (I2cWorld V × List Reply)
  transaction w is_read es = do
    (w', ack) ← start device w is_read
    (w'', replies) ← talk w' es
    ok (stop device w'', replies)

  -- What one device alone makes of an exchange, and of several.
  abbrev pub hear : V → Exchange → V × Reply
  hear v (sends byte) = let (v', ack) = device.on_write v byte in (v', acked ack)
  hear v asks = let (v', byte) = device.on_read v in (v', got byte)

  unfoldable pub hear_all : V → List Exchange → V × List Reply
  hear_all v [] = (v, [])
  hear_all v (e ∷ es) =
      let (v', reply) = hear v e in let (v'', replies) = hear_all v' es in (v'', reply ∷ replies)

  -- A transaction with a device is open.
  pub record Open (w : I2cWorld V) (d : ℕ) : Type 0 where
    pub on : enabled w.i2c ≡ true
    pub empty : w.i2c.rx_buffer ≡ []
    pub busy : w.i2c.is_busy ≡ true
    pub active : w.i2c.active_device ≡ some d

  exchange-Open :
      (w : I2cWorld V) (d : ℕ) (e : Exchange)
      → Open w d
      → let (v, reply) = hear (w.devices d) e in
        (w' : I2cWorld V) × (exchange w e ≡ ok (w', reply))
        × Open w' d
        × (w'.devices ≡ update w.devices d v)
  unfolding exchange write_byte read_byte enabled update_status_register
  exchange-Open w d (sends byte) o = (
    (written device w byte).0,
    simp (o.on, o.busy, o.active) refl,
    record { on = o.on; empty = o.empty; busy = o.busy; active = o.active },
    ap (λ a. (write_device device a w.devices byte).0) o.active,
  )
  exchange-Open w d asks o = (
    (asked device w d).0,
    simp (o.on, o.empty, o.busy, o.active) refl,
    record { on = o.on; empty = o.empty; busy = o.busy; active = o.active },
    refl,
  )

  talk-Open :
      (es : List Exchange) (w : I2cWorld V) (d : ℕ)
      → Open w d
      → let (v, replies) = hear_all (w.devices d) es in
        (w' : I2cWorld V) × (talk w es ≡ ok (w', replies))
        × Open w' d
        × (w'.devices d ≡ v)
        × ((x : ℕ) → w'.devices x ≡ update w.devices d v x)
  unfolding talk hear_all
  talk-Open [] w d o = (w, refl, o, refl, update_same w.devices d)
  talk-Open (e ∷ es) w d o =
      let (w', r, o', m) = exchange-Open w d e o in
      let own : w'.devices d ≡ (hear (w.devices d) e).0 = rw m (rw (==_self d) refl) in
      let (w'', rs, o'', h, all) = talk-Open es w' d o' in
      let last = (hear_all (hear (w.devices d) e).0 es).0 in
      let ended : (hear_all (w'.devices d) es).0 ≡ last = ap (λ v. (hear_all v es).0) own in
      (
        w'',
        rw (r, rs, own) refl,
        o'',
        h ∙ ended,
        λ x.
            all x
            ∙ ap (λ v. update w'.devices d v x) ended
            ∙ ap (λ f. update f d last x) m
            ∙ update_twice w.devices d (hear (w.devices d) e).0 last x,
      )

  pub stop-Open :
      (w : I2cWorld V) (d x : ℕ)
      → Open w d
      → (stop device w).devices x ≡ update w.devices d (device.on_stop (w.devices d)) x
  unfolding stop
  stop-Open w d x o = ap (λ a. stop_device device a w.devices x) o.active

  pub start-Open :
      (w : I2cWorld V) (d : ℕ) (is_read : Bool)
      → enabled w.i2c ≡ true
      → w.i2c.rx_buffer ≡ []
      → find device w.devices w.i2c.attached (slave_address w.i2c) ≡ some d
      → (device.on_start (w.devices d) is_read).1 ≡ true
      → (w' : I2cWorld V) × (start device w is_read ≡ ok (w', true))
        × Open w' d
        × (w'.devices ≡ update w.devices d (device.on_start (w.devices d) is_read).0)
  unfolding start enabled update_status_register
  start-Open w d is_read on empty found ack = (
    (address_device device
        (record w { i2c = record w.i2c { is_busy = true; is_read_mode = is_read } }) is_read
        (some d)).0,
    simp (on, found, ack) refl,
    record { on = on; empty = empty; busy = refl; active = rw ack refl },
    refl,
  )

  -- A transaction on an enabled controller with an attached device of the address that
  -- acknowledges the start does not throw. The replies are those of the first such device alone,
  -- which hears the start, each exchange in turn, and the stop; every other device stays as it
  -- was.
  pub transaction-device :
      (w : I2cWorld V) (d x : ℕ) (is_read : Bool) (es : List Exchange)
      → enabled w.i2c ≡ true
      → w.i2c.rx_buffer ≡ []
      → find device w.devices w.i2c.attached (slave_address w.i2c) ≡ some d
      → (device.on_start (w.devices d) is_read).1 ≡ true
      → let (v, replies) = hear_all (device.on_start (w.devices d) is_read).0 es in
        (w' : I2cWorld V) × (transaction w is_read es ≡ ok (w', replies))
        × (w'.devices x ≡ update w.devices d (device.on_stop v) x)
  unfolding transaction
  transaction-device w d x is_read es on empty found ack =
      let (w1, s, o1, m) = start-Open w d is_read on empty found ack in
      let begun = (device.on_start (w.devices d) is_read).0 in
      let own : w1.devices d ≡ begun = rw m (rw (==_self d) refl) in
      let (w2, t, o2, h, all) = talk-Open es w1 d o1 in
      (
        stop device w2,
        rw (s, t, own) refl,
        stop-Open w2 d x o2 ∙ elim (Bool-cases (d == x)) [
          | inl e ↦ rw e (ap device.on_stop (h ∙ ap (λ v. (hear_all v es).0) own))
          | inr e ↦ rw e (rw e at (all x) ∙ rw e at (ap (λ f. f x) m))
        ],
      )

-- A start, a write and a read throw exactly on a disabled controller; a write also with no
-- transaction open, and a read with nothing received and no transaction or no active device, each
-- with its own exception.
pub i2c_access_fails :
    {V : Type 0} (device : I2cDevice V) (w : I2cWorld V) (is_read : Bool) (byte : ℕ)
    → ((start device w is_read ≡ throws runtime_error) ↔ (enabled w.i2c ≡ false))
      × ((write_byte device w byte ≡ throws runtime_error)
          ↔ ((enabled w.i2c ≡ false) ⊎ (w.i2c.is_busy ≡ false)))
      × ((read_byte device w ≡ throws runtime_error) ↔ (enabled w.i2c ≡ false))
      × ((read_byte device w ≡ throws underflow_error) ↔ (
          (enabled w.i2c ≡ true)
          × (w.i2c.rx_buffer ≡ [])
          × ((w.i2c.is_busy ≡ false) ⊎ (w.i2c.active_device ≡ none))))
unfolding start write_byte read_byte
i2c_access_fails device w is_read byte = (ground arith, ground arith, ground arith, ground arith)
