-- ===== src/Mmio/Laws.antt =====
-- What the bus (src/mmio/mmio_bus.cpp) guarantees: decoding after registration and removal,
-- constructors undone by destructors, and accesses that meet in one register.
use mathlib.Core.List.{Perm}
use embedded_firmware_simula.Prelude.{
  ℕ, ◌≡◌, ◌≢◌, refl, sym, ◌∙◌, ap, true, false, not, ◌||◌, List, [], ◌∷◌, none, some, ◌==◌, ltb,
  if◌then◌else◌, ok, throws, out_of_range, arith, inl, inr, Bool-cases, Option-cases, ==_self, ◌↔◌,
}
use native.Mathlib.Decide.{ℕ_discrete as dec_eq}
use embedded_firmware_simula.Prelude.Sorting.{IsSorted, sort-Perm, sort-IsSorted}
use embedded_firmware_simula.Mmio.Bus.{
  MmioBus, RegisterStore, find, erase, contains, register_register, unregister_register,
  register_all, construct, unregister_all, registered_addresses, keys, read, write,
}

module _ {R : Type 0} where
  -- No address is mapped twice.
  abbrev pub UniqueKeys : List (ℕ × R) → Type 0
  UniqueKeys [] = Unit {0}
  UniqueKeys ((k, r) ∷ rest) = (find k rest ≡ none) × UniqueKeys rest

  pub find-erase :
      (a c : ℕ) (l : List (ℕ × R))
      → UniqueKeys l
      → find c (erase a l) ≡ (if a == c then none else find c l)
  unfolding find erase
  find-erase a c [] u = ground arith
  find-erase a c ((k, r) ∷ l) u = ground (arith, find-erase a c l u.1)

  UniqueKeys-erase : (a : ℕ) (l : List (ℕ × R)) → UniqueKeys l → UniqueKeys (erase a l)
  unfolding erase
  UniqueKeys-erase a [] u = tt
  UniqueKeys-erase a ((k, r) ∷ l) u = ground (arith, UniqueKeys-erase a l u.1, find-erase a k l u.1)

  -- Registering maps a free address to the register and reports so; a null pointer and a taken
  -- address leave the bus as it was; in every case no address is mapped twice.
  pub register_register_lem :
      (b : MmioBus R) (a : ℕ) (r : R)
      → UniqueKeys b.registers
      → let (b', done) = register_register b (some (a, r)) in
        (done ≡ not (contains b a))
        × ((c : ℕ) → contains b' c ≡ (contains b c || a == c))
        × (find a b'.registers ≡ (if contains b a then find a b.registers else some r))
        × UniqueKeys b'.registers
  unfolding register_register find
  register_register_lem b a r u = (ground arith, λ c. ground arith, ground arith, ground arith)

  -- Removing an address unmaps that address alone, and reports whether it was mapped.
  pub unregister_register_lem :
      (b : MmioBus R) (a : ℕ)
      → UniqueKeys b.registers
      → let (b', done) = unregister_register b a in
        (done ≡ contains b a)
        × ((c : ℕ) → contains b' c ≡ (if a == c then false else contains b c))
        × UniqueKeys b'.registers
  unfolding unregister_register
  unregister_register_lem b a u = (
    ground arith,
    λ c. ground (arith, find-erase a c b.registers u),
    ground (arith, UniqueKeys-erase a b.registers u),
  )

  register_register_null : (b : MmioBus R) → register_register b none ≡ (b, false)
  unfolding register_register
  register_register_null b = refl

  -- Sorted, and the mapped addresses themselves.
  pub registered_addresses_lem :
      (b : MmioBus R)
      → IsSorted ltb (registered_addresses b) × Perm (registered_addresses b) (keys b.registers)
  unfolding registered_addresses
  registered_addresses_lem b = (
    sort-IsSorted ltb (λ x y h. ground arith) (λ x y z h k. ground arith) (keys b.registers),
    sort-Perm ltb (keys b.registers),
  )

  pub register_all-free :
      (b : MmioBus R) (c : ℕ) (q : R) (xs : List (ℕ × R))
      → contains b c ≡ false
      → register_all b ((c, q) ∷ xs) ≡ register_all (record { registers = (c, q) ∷ b.registers }) xs
  unfolding register_all
  register_all-free b c q xs h = rw h

  pub register_all-taken :
      (b : MmioBus R) (c : ℕ) (q : R) (xs : List (ℕ × R))
      → contains b c ≡ true
      → register_all b ((c, q) ∷ xs) ≡ (b, false)
  unfolding register_all
  register_all-taken b c q xs h = rw h

  find-erase-none : (a c : ℕ) (l : List (ℕ × R)) → find c l ≡ none → find c (erase a l) ≡ none
  unfolding find erase
  find-erase-none a c [] h = refl
  find-erase-none a c ((k, r) ∷ l) h = ground (arith, find-erase-none a c l)

  contains-erase :
      (b : MmioBus R) (a c : ℕ)
      → contains b c ≡ false
      → contains (record { registers = erase a b.registers }) c ≡ false
  unfolding contains
  contains-erase b a c h = ground (arith, find-erase-none a c b.registers)

  -- Registrations neither see nor touch an entry with another address.
  register_all-erase :
      (a : ℕ) (b : MmioBus R) (xs : List (ℕ × R)) (b' : MmioBus R)
      → contains b a ≡ true
      → register_all b xs ≡ (b', true)
      → register_all (record { registers = erase a b.registers }) xs
        ≡ (record { registers = erase a b'.registers }, true)
  unfolding register_all
  register_all-erase a b [] b' m h = ground arith
  register_all-erase a b ((c, q) ∷ xs) b' m h = elim (Bool-cases (contains b c)) [
    | inl e ↦ absurd (cc (register_all-taken b c q xs e))
    | inr e ↦
        let apart : (c == a) ≡ false = ground arith in
        let grown : MmioBus R = record { registers = (c, q) ∷ b.registers } in
        let kept : contains grown a ≡ true = ground arith in
        let h' : register_all grown xs ≡ (b', true) = sym (register_all-free b c q xs e) ∙ h in
        let swapped : erase a ((c, q) ∷ b.registers) ≡ (c, q) ∷ erase a b.registers =
          unfold erase in rw apart in
        register_all-free (record { registers = erase a b.registers }) c q xs
          (contains-erase b a c e)
        ∙ ap (λ l. register_all (record { registers = l }) xs) (sym swapped)
        ∙ register_all-erase a grown xs b' kept h'
  ]

  contains-register_all :
      (a : ℕ) (b : MmioBus R) (xs : List (ℕ × R))
      → contains b a ≡ true
      → contains (register_all b xs).0 a ≡ true
  contains-register_all a b [] h = unfold register_all in h
  contains-register_all a b ((c, q) ∷ xs) h = elim (Bool-cases (contains b c)) [
    | inl e ↦ rw (register_all-taken b c q xs e) h
    | inr e ↦ rw (register_all-free b c q xs e) (
        contains-register_all a (record { registers = (c, q) ∷ b.registers }) xs
          (unfold contains find in ground arith))
  ]

  unregister_all-step :
      (b : MmioBus R) (a : ℕ) (as' : List ℕ)
      → contains b a ≡ true
      → unregister_all b (a ∷ as') ≡ unregister_all (record { registers = erase a b.registers }) as'
  unfolding unregister_all
  unregister_all-step b a as' h = rw h

  -- A destructor undoes its constructor: when all the registers of a peripheral could be
  -- registered, unregistering their addresses gives the bus back as it was.
  pub unregister_all-register_all :
      (b : MmioBus R) (xs : List (ℕ × R)) (b' : MmioBus R)
      → register_all b xs ≡ (b', true)
      → unregister_all b' (keys xs) ≡ b
  unregister_all-register_all b [] b' h = unfold register_all unregister_all in ground arith
  unregister_all-register_all b ((a, q) ∷ xs) b' h = elim (Bool-cases (contains b a)) [
    | inl e ↦ absurd (cc (register_all-taken b a q xs e))
    | inr e ↦
        let grown : MmioBus R = record { registers = (a, q) ∷ b.registers } in
        let h' : register_all grown xs ≡ (b', true) = sym (register_all-free b a q xs e) ∙ h in
        let here : contains grown a ≡ true = unfold contains find in ground arith in
        let there : contains b' a ≡ true =
          rw (ap (λ p. p.0) h') at (contains-register_all a grown xs here) in
        let mine : erase a ((a, q) ∷ b.registers) ≡ b.registers = unfold erase in rw (==_self a) in
        let rest : register_all b xs ≡ (record { registers = erase a b'.registers }, true) =
          rw mine at (register_all-erase a grown xs b' here h') in
        unregister_all-step b' a (keys xs) there
        ∙ unregister_all-register_all b xs (record { registers = erase a b'.registers }) rest
  ]

  pub construct-ok {ℓ} :
      {P : Type ℓ} (b b' : MmioBus R) (xs : List (ℕ × R)) (p q : P)
      → construct b xs p ≡ (b', ok q)
      → (register_all b xs ≡ (b', true)) × (q ≡ p)
  unfolding construct
  construct-ok b b' xs p q h = ground arith

  -- When a peripheral's constructor succeeds, unregistering its addresses gives the bus back as it
  -- was.
  pub unregister_all-construct {ℓ} :
      {P : Type ℓ} (b b' : MmioBus R) (xs : List (ℕ × R)) (p q : P)
      → construct b xs p ≡ (b', ok q)
      → unregister_all b' (keys xs) ≡ b
  unregister_all-construct b b' xs p q h =
      unregister_all-register_all b xs b' (construct-ok b b' xs p q h).0

  -- A constructor that fails on its second address leaves its first one mapped.
  pub register_all_leak :
      (b : MmioBus R) (a c : ℕ) (r q : R) (xs : List (ℕ × R))
      → contains b a ≡ false
      → contains b c ≡ true
      → let (b', done) = register_all b ((a, r) ∷ (c, q) ∷ xs) in
        (done ≡ false) × (contains b' a ≡ true)
  register_all_leak b a c r q xs free taken = rw (register_all-free b a r ((c, q) ∷ xs) free) (
      rw
        (register_all-taken (record { registers = (a, r) ∷ b.registers }) c q xs
          (unfold contains find in ground arith))
        (refl, unfold contains find in ground arith))

module _ {S R : Type 0} (store : RegisterStore S R) where
  -- The addresses of the bus point to different registers.
  abbrev pub PointsApart : List (ℕ × R) → Type 0
  PointsApart l = (a c : ℕ) (r q : R) → a ≢ c → find a l ≡ some r → find c l ≡ some q → r ≢ q

  -- On a bus whose addresses point to different registers, a write that succeeds is read back at
  -- its address, and is seen at no other one.
  pub read-write_mapped :
      (s s' : S) (b : MmioBus R) (a c v : ℕ)
      → PointsApart b.registers
      → write store s b a v ≡ ok s'
      → read store s' b c ≡ (if a == c then ok v else read store s b c)
  unfolding read write
  read-write_mapped s s' b a c v apart h = elim (Option-cases (find a b.registers)) [
    | inl e ↦ absurd (ground arith)
    | inr (r, e) ↦ elim (dec_eq a c) [
      | yes same ↦
          let f : find c b.registers ≡ some r = rw (← same) e in
          ground (arith, store.load-save s r (record (store.load s r) { value = v }))
      | no n ↦ elim (Option-cases (find c b.registers)) [
        | inl f ↦ ground arith
        | inr (q, f) ↦ ground (
          arith,
          store.load-save_ne s r q (record (store.load s r) { value = v }) (apart a c r q n e f),
        )
      ]
    ]
  ]

  -- Both accesses fail on an unmapped address, and only there.
  pub bus_access_fails :
      (s : S) (b : MmioBus R) (a v : ℕ)
      → ((read store s b a ≡ throws out_of_range) ↔ (contains b a ≡ false))
        × ((write store s b a v ≡ throws out_of_range) ↔ (contains b a ≡ false))
  unfolding read write contains
  bus_access_fails s b a v = ground arith
