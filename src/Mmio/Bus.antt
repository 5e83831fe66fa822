-- ===== src/Mmio/Bus.antt =====
-- The bus: include/mmio/mmio_bus.hpp, src/mmio/mmio_bus.cpp. A shared pointer to a register is a
-- reference `R`; what it points to lies in a state `S`, which a `RegisterStore` reads and writes.
-- The peripherals keep their registers in their own records and give such a store, so that an
-- access through the bus and one through the driver meet in the same register.
use embedded_firmware_simula.Prelude.{
  ℕ, ◌+◌, ◌%◌, ◌^◌, ◌≡◌, ◌≢◌, Bool, true, false, List, [], ◌∷◌, map, Option, none, some, ◌==◌, ltb,
  if◌then◌else◌, Outcome, ok, throws, out_of_range, runtime_error,
}
use embedded_firmware_simula.Prelude.Sorting.{sort}
use embedded_firmware_simula.Mmio.Register.{Register}
use embedded_firmware_simula.Mmio.Register

pub record RegisterStore (S R : Type 0) : Type 0 where
  pub load : S → R → Register
  pub save : S → R → Register → S
  pub load-save : (s : S) (r : R) (x : Register) → load (save s r x) r ≡ x
  pub load-save_ne : (s : S) (r q : R) (x : Register) → r ≢ q → load (save s r x) q ≡ load s q

-- `m_registers`: addresses and what they point to, in some order.
pub record MmioBus (R : Type 0) : Type 0 where
  pub registers : List (ℕ × R)

-- `baseAddress + OFFSET`, in 64 bits.
abbrev pub at_offset : ℕ → ℕ → ℕ
at_offset base offset = (base + offset) % 2 ^ 64

module _ {R : Type 0} where
  -- `m_registers.find(address)`
  unfoldable pub find : ℕ → List (ℕ × R) → Option R
  find a [] = none
  find a ((k, r) ∷ rest) = if k == a then some r else find a rest

  -- `m_registers.erase(it)`
  unfoldable pub erase : ℕ → List (ℕ × R) → List (ℕ × R)
  erase a [] = []
  erase a ((k, r) ∷ rest) = if k == a then rest else (k, r) ∷ erase a rest

  unfoldable pub contains : MmioBus R → ℕ → Bool
  unfolding find
  contains b a = elim (find a b.registers) [ none ↦ false | some r ↦ true ]

  -- `registerRegister(reg)`: a pointer comes with the address of its register, which is constant.
  unfoldable pub register_register : MmioBus R → Option (ℕ × R) → MmioBus R × Bool
  unfolding contains
  register_register b none = (b, false)
  register_register b (some (a, r)) =
      if contains b a then (b, false) else (record { registers = (a, r) ∷ b.registers }, true)

  unfoldable pub unregister_register : MmioBus R → ℕ → MmioBus R × Bool
  unfolding contains erase
  unregister_register b a =
      if contains b a then (record { registers = erase a b.registers }, true) else (b, false)

  -- The constructors' `!register(a) || !register(b) || ...`: it stops at the first refusal.
  unfoldable pub register_all : MmioBus R → List (ℕ × R) → MmioBus R × Bool
  unfolding register_register
  register_all b [] = (b, true)
  register_all b (x ∷ xs) =
      let (b', done) = register_register b (some x) in
      let rest = register_all b' xs in if done then rest else (b', false)

  -- A peripheral's constructor: register its registers, or throw. What was registered before the
  -- refusal stays on the bus.
  unfoldable pub construct {ℓ} : {P : Type ℓ} → MmioBus R → List (ℕ × R) → P → MmioBus R × Outcome P
  unfolding register_all
  construct b entries peripheral =
      let (b', done) = register_all b entries in
      (b', if done then ok peripheral else throws runtime_error)

  -- The destructors' calls of `unregisterRegister`.
  unfoldable pub unregister_all : MmioBus R → List ℕ → MmioBus R
  unfolding unregister_register
  unregister_all b [] = b
  unregister_all b (a ∷ as') = unregister_all (unregister_register b a).0 as'

  abbrev pub keys : List (ℕ × R) → List ℕ
  keys = map (λ p. p.0)

  unfoldable pub registered_addresses : MmioBus R → List ℕ
  unfolding sort
  registered_addresses b = sort ltb (keys b.registers)

module _ {S R : Type 0} (store : RegisterStore S R) where
  -- `read(address)`
  unfoldable pub read : S → MmioBus R → ℕ → Outcome ℕ
  unfolding find Register.read
  read s b a = elim (find a b.registers) [
    | none ↦ throws out_of_range
    | some r ↦ ok (Register.read (store.load s r))
  ]

  -- `write(address, value)`: the new state of what the bus points to.
  unfoldable pub write : S → MmioBus R → ℕ → ℕ → Outcome S
  unfolding find Register.write
  write s b a v = elim (find a b.registers) [
    | none ↦ throws out_of_range
    | some r ↦ ok (store.save s r (Register.write (store.load s r) v))
  ]
