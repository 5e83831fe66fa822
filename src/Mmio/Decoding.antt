-- ===== src/Mmio/Decoding.antt =====
-- What a constructor that succeeds leaves on the bus: each of its addresses decodes to its own
-- register, and what was mapped before still is.
use embedded_firmware_simula.Prelude.{
  ℕ, ◌≡◌, sym, ◌∙◌, true, List, [], ◌∷◌, some, ok, arith, inl, inr, Bool-cases, ==_self,
}
use embedded_firmware_simula.Mmio.Bus.{
  MmioBus, RegisterStore, find, contains, register_all, read, write,
}
use embedded_firmware_simula.Mmio.Laws.{register_all-free, register_all-taken}

module _ {R : Type 0} where
  find-kept :
      (c : ℕ) (q : R) (b : MmioBus R) (xs : List (ℕ × R)) (b' : MmioBus R)
      → find c b.registers ≡ some q
      → register_all b xs ≡ (b', true)
      → find c b'.registers ≡ some q
  find-kept c q b [] b' m h = unfold register_all in ground arith
  find-kept c q b ((a, r) ∷ xs) b' m h = elim (Bool-cases (contains b a)) [
    | inl e ↦ absurd (cc (register_all-taken b a r xs e))
    | inr e ↦
        find-kept c q (record { registers = (a, r) ∷ b.registers }) xs b'
          (unfold contains find in ground arith) (sym (register_all-free b a r xs e) ∙ h)
  ]

  -- Each address of the list decodes to its register.
  abbrev pub Decodes : List (ℕ × R) → List (ℕ × R) → Type 0
  Decodes l [] = Unit {0}
  Decodes l ((a, r) ∷ xs) = (find a l ≡ some r) × Decodes l xs

  -- When all registers could be registered, each of the addresses decodes to its own register.
  pub register_all-Decodes :
      (b : MmioBus R) (xs : List (ℕ × R)) (b' : MmioBus R)
      → register_all b xs ≡ (b', true)
      → Decodes b'.registers xs
  register_all-Decodes b [] b' h = tt
  register_all-Decodes b ((a, r) ∷ xs) b' h = elim (Bool-cases (contains b a)) [
    | inl e ↦ absurd (cc (register_all-taken b a r xs e))
    | inr e ↦
        let h' = sym (register_all-free b a r xs e) ∙ h in
        (
          find-kept a r (record { registers = (a, r) ∷ b.registers }) xs b'
              (unfold find in rw (==_self a)) h',
          register_all-Decodes (record { registers = (a, r) ∷ b.registers }) xs b' h',
        )
  ]

module _ {S R : Type 0} (store : RegisterStore S R) where
  -- A write to a decoded address writes its register; a read reads it.
  pub write-decoded :
      (s : S) (b : MmioBus R) (a v : ℕ) (r : R)
      → find a b.registers ≡ some r
      → write store s b a v ≡ ok (store.save s r (record (store.load s r) { value = v }))
  unfolding write
  write-decoded s b a v r h = rw (h, write)

  pub read-decoded :
      (s : S) (b : MmioBus R) (a : ℕ) (r : R)
      → find a b.registers ≡ some r
      → read store s b a ≡ ok (store.load s r).value
  unfolding read
  read-decoded s b a r h = rw (h, read)
