-- ===== src/Firmware/Active.antt =====
-- The active application of the firmware manager (src/firmware/firmware_manager.cpp).
use embedded_firmware_simula.Prelude.{
  ◌≡◌, ◌⊎◌, inl, inr, refl, true, false, not, ◌&&◌, List, [], ◌∷◌, Option, none, some, is_some,
  if◌then◌else◌, arith, Bool-cases,
}
use embedded_firmware_simula.Firmware.{
  Names, FirmwareManager, new, find, insert, erase, register_firmware, unregister_firmware,
  set_active_firmware, active_firmware, shutdown, reselect,
}

-- A call that changes the manager.
pub data Call (N F : Type 0) : Type 0 where
  registers : N → Option F → Call N F
  unregisters activates : N → Call N F

module _ {N F : Type 0} (names : Names N) where
  unfoldable pub step : FirmwareManager N F → Call N F → FirmwareManager N F
  unfolding register_firmware unregister_firmware set_active_firmware
  step m (registers n f) = (register_firmware names m n f).0
  step m (unregisters n) = (unregister_firmware names m n).0
  step m (activates n) = (set_active_firmware names m n).0

  unfoldable pub run : FirmwareManager N F → List (Call N F) → FirmwareManager N F
  unfolding step
  run m [] = m
  run m (c ∷ cs) = run (step m c) cs

  -- The active name is registered, or nothing is and the active name is empty.
  abbrev pub HasActive : FirmwareManager N F → Type 0
  HasActive m =
      (is_some (find names m.active_name m.registry) ≡ true)
      ⊎ ((m.registry ≡ []) × (m.active_name ≡ names.empty))

  find-insert_self :
      (n : N) (f : F) (l : List (N × F)) → is_some (find names n (insert names n f l)) ≡ true
  unfolding find insert
  find-insert_self n f [] = rw ((names.same_iff n n).1 refl) refl
  find-insert_self n f ((k, g) ∷ l) =
      ground (arith, (names.same_iff n n).1 refl, find-insert_self n f l)

  find-insert :
      (a n : N) (f : F) (l : List (N × F))
      → is_some (find names a l) ≡ true
      → is_some (find names a (insert names n f l)) ≡ true
  unfolding find insert
  find-insert a n f [] h = ground (arith, h)
  find-insert a n f ((k, g) ∷ l) h = ground (arith, h, find-insert a n f l)

  find-erase :
      (a n : N) (l : List (N × F))
      → names.same a n ≡ false
      → find names a (erase names n l) ≡ find names a l
  unfolding find erase
  find-erase a n [] h = refl
  find-erase a n ((k, g) ∷ l) h =
      ground
        (arith, h, find-erase a n l h, names.same_iff k n, names.same_iff k a, names.same_iff a n)

  register_firmware-HasActive :
      (m : FirmwareManager N F) (n : N) (o : Option F)
      → HasActive m
      → HasActive (register_firmware names m n o).0
  unfolding register_firmware
  register_firmware-HasActive m n none h = h
  register_firmware-HasActive m n (some f) h = ground (
    arith,
    h,
    find-insert_self n f m.registry,
    find-insert m.active_name n f m.registry,
    (names.same_iff names.empty names.empty).1 refl,
  )

  reselect-HasActive :
      (left : List (N × F)) (a : N)
      → (a ≡ names.empty) ⊎ (is_some (find names a left) ≡ true)
      → HasActive (record { registry = left; active_name = reselect names left a })
  unfolding find
  reselect-HasActive [] a (inl e) = inr (refl, e)
  reselect-HasActive [] a (inr e) = inl e
  reselect-HasActive ((k, f) ∷ rest) a h =
      ground (arith, h, (names.same_iff k k).1 refl, names.same_iff a names.empty)

  unregister_firmware-HasActive :
      (m : FirmwareManager N F) (n : N) → HasActive m → HasActive (unregister_firmware names m n).0
  unfolding unregister_firmware
  unregister_firmware-HasActive m n h = elim (Bool-cases (is_some (find names n m.registry))) [
    | inl e ↦ simp e (
        reselect-HasActive (erase names n m.registry) _
          (kept (Bool-cases (names.same m.active_name n))))
    | inr e ↦ simp e h
  ]
    where
      kept :
          (names.same m.active_name n ≡ true) ⊎ (names.same m.active_name n ≡ false)
          → ((if names.same m.active_name n then names.empty else m.active_name) ≡ names.empty)
            ⊎ (is_some (
                  find names
                    (if names.same m.active_name n then names.empty else m.active_name)
                    (erase names n m.registry))
                ≡ true)
      kept (inl e) = inl (rw e refl)
      kept (inr e) = elim h [
        | inl f ↦ inr (simp e (rw (find-erase m.active_name n m.registry e) f))
        | inr f ↦ inl (simp e f.1)
      ]

  set_active_firmware-HasActive :
      (m : FirmwareManager N F) (n : N) → HasActive m → HasActive (set_active_firmware names m n).0
  unfolding set_active_firmware
  set_active_firmware-HasActive m n h = ground (arith, h)

  step-HasActive : (m : FirmwareManager N F) (c : Call N F) → HasActive m → HasActive (step m c)
  unfolding step
  step-HasActive m (registers n f) h = register_firmware-HasActive m n f h
  step-HasActive m (unregisters n) h = unregister_firmware-HasActive m n h
  step-HasActive m (activates n) h = set_active_firmware-HasActive m n h

  run-HasActive :
      (m : FirmwareManager N F) (cs : List (Call N F)) → HasActive m → HasActive (run m cs)
  unfolding run
  run-HasActive m [] h = h
  run-HasActive m (c ∷ cs) h = run-HasActive (step m c) cs (step-HasActive m c h)

  -- After any calls on a new manager, the active name is that of a registered application; only if
  -- none is registered is there no active one, and then the active name is empty.
  pub new-HasActive : (cs : List (Call N F)) → HasActive (run (new names) cs)
  new-HasActive cs = run-HasActive (new names) cs (inr (refl, refl))

  -- Activating a registered application that is not active makes it the active one, and shuts down
  -- the one that was, and no other; activating the active one or an unknown name calls nothing and
  -- leaves the manager's registry and active application as they were.
  pub set_active_firmware_lem :
      (m : FirmwareManager N F) (n : N)
      → let (m', done, calls) = set_active_firmware names m n in
        (done ≡ is_some (find names n m.registry))
        × (active_firmware names m'
            ≡ (if done then find names n m.registry else active_firmware names m))
        × (calls ≡ (if done && not (names.same m.active_name n) then shutdown names m else []))
        × (m'.registry ≡ m.registry)
  unfolding set_active_firmware active_firmware
  set_active_firmware_lem m n = ground (arith, names.same_iff m.active_name n)
