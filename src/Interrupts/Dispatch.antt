-- ===== src/Interrupts/Dispatch.antt =====
-- Which line `dispatch` (src/kernel/interrupt_controller.cpp) serves.
use mathlib.Core.Path.{subst}
use native.Mathlib.Decide.{ℕ_discrete as dec_eq}
use embedded_firmware_simula.Prelude.{
  ℕ, zero, suc, ◌+◌, ◌<◌, ◌≤◌, ◌≡◌, ◌⊎◌, inl, inr, Bool, true, false, ◌&&◌, Option, none, some, ltb,
  ◌==◌, if◌then◌else◌, is_some, arith, Option-cases, Bool-cases, ==_iff,
}
use embedded_firmware_simula.Prelude.Bits.{
  test_bit, test_bit-bit_and, test_bit-zero, test_bit-clear_bit,
}
use embedded_firmware_simula.Interrupts.{
  InterruptController, better, scan, active_bits, dispatch, clear_line, max_interrupts,
}

-- What the loop has found among the lines below `i`, as far as line `j` goes.
abbrev Covers : (ℕ → Bool) → (ℕ → ℕ) → Option (ℕ × ℕ) → ℕ → ℕ → Type 0
Covers waits priority none i j = j < i → waits j ≡ false
Covers waits priority (some (k, p)) i j =
    (k < i)
    × (waits k ≡ true)
    × (p ≡ priority k)
    × (j < i → waits j ≡ true → (p < priority j) ⊎ ((p ≡ priority j) × (k ≤ j)))

better-Covers :
    (waits : ℕ → Bool) (priority : ℕ → ℕ) (held : Option (ℕ × ℕ)) (i j : ℕ)
    → Covers waits priority held i j
    → Covers waits priority (if waits i then better held i (priority i) else held) (i + 1) j
better-Covers waits priority none i j v = elim (dec_eq j i) [
  | yes e ↦ rw e (ground arith)
  | no n ↦ ground arith
]
better-Covers waits priority (some (k, p)) i j v = elim (dec_eq j i) [
  | yes e ↦ rw e (ground arith)
  | no n ↦ ground arith
]

module _ {H : Type 0} where
  -- Line `i` is one of the 32, is enabled and pending and has a handler.
  abbrev pub is_candidate : InterruptController H → ℕ → Bool
  is_candidate c i =
      ltb i max_interrupts
      && test_bit c.enable_register.value i
      && test_bit c.pending_register.value i
      && is_some (c.handlers i)

  scan-Covers :
      (n i e active : ℕ) (c : InterruptController H) (held : Option (ℕ × ℕ)) (j : ℕ)
      → i + n ≡ e
      → Covers (λ l. test_bit active l && is_some (c.handlers l)) c.priorities held i j
      → Covers
          (λ l. test_bit active l && is_some (c.handlers l))
          c.priorities
          (scan n i active c held)
          e
          j
  unfolding scan
  scan-Covers zero i e active c held j h v = let same : i ≡ e = omega arith in rw (← same) v
  scan-Covers (suc n) i e active c held j h v =
      scan-Covers n (i + 1) e active c _ j (omega arith)
        (better-Covers (λ l. test_bit active l && is_some (c.handlers l)) c.priorities held i j v)

  -- The loop's test is that of a candidate, on the 32 lines.
  active-candidate :
      (c : InterruptController H) (i : ℕ)
      → (ltb i max_interrupts && (test_bit (active_bits c) i && is_some (c.handlers i)))
        ≡ is_candidate c i
  unfolding active_bits
  active-candidate c i =
      rw (test_bit-bit_and c.enable_register.value c.pending_register.value i) (ground arith)

  -- Line `i` comes before line `j`: its priority value is lower, or equal with a lower number.
  abbrev pub Precedes : InterruptController H → ℕ → ℕ → Type 0
  Precedes c i j = (c.priorities i < c.priorities j) ⊎ ((c.priorities i ≡ c.priorities j) × (i ≤ j))

  idle_active : (c : InterruptController H) (i : ℕ) → active_bits c ≡ 0 → is_candidate c i ≡ false
  idle_active c i e = rw (← active-candidate c i) (rw e (rw (test_bit-zero i) (ground arith)))

  scanned :
      (c : InterruptController H) (held : Option (ℕ × ℕ)) (j : ℕ)
      → scan 32 0 (active_bits c) c none ≡ held
      → Covers (λ l. test_bit (active_bits c) l && is_some (c.handlers l)) c.priorities held 32 j
  scanned c held j e =
      subst
        (λ t.
          Covers (λ l. test_bit (active_bits c) l && is_some (c.handlers l)) c.priorities t 32 j)
        e (scan-Covers 32 0 32 (active_bits c) c none j (omega arith) (λ h. absurd (omega arith)))

  found :
      (c : InterruptController H) (k p : ℕ)
      → scan 32 0 (active_bits c) c none ≡ some (k, p)
      → (is_candidate c k ≡ true) × ((j : ℕ) → (is_candidate c j ≡ false) ⊎ Precedes c k j)
  found c k p e = (
    ground (arith, scanned c (some (k, p)) 0 e, active-candidate c k),
    λ j. ground (arith, scanned c (some (k, p)) j e, active-candidate c j),
  )

  not_found :
      (c : InterruptController H) (j : ℕ)
      → scan 32 0 (active_bits c) c none ≡ none
      → is_candidate c j ≡ false
  not_found c j e = ground (arith, scanned c none j e, active-candidate c j)

  -- `dispatch` either finds that no line is enabled, pending and handled, and then changes and
  -- calls nothing and returns false; or it picks such a line which precedes every other one, by
  -- priority and then by number, clears its pending bit, calls its handler and returns true.
  pub dispatch_lem :
      (c : InterruptController H)
      → ((dispatch c ≡ (c, false, none)) × ((j : ℕ) → is_candidate c j ≡ false))
        ⊎ ((i : ℕ) × (dispatch c ≡ (clear_line c i, true, c.handlers i))
            × (is_candidate c i ≡ true)
            × ((j : ℕ) → (is_candidate c j ≡ false) ⊎ Precedes c i j))
  unfolding dispatch
  dispatch_lem c = elim (Bool-cases (active_bits c == 0)) [
    | inl e ↦ inl (rw e, λ j. idle_active c j ((==_iff (active_bits c) 0).0 e))
    | inr e ↦ elim (Option-cases (scan 32 0 (active_bits c) c none)) [
      | inl f ↦ inl (rw (e, f), λ j. not_found c j f)
      | inr ((i, p), f) ↦
          let (here, best) = found c i p f in inr (i, rw (e, f) (ground arith), here, best)
    ]
  ]

  -- A line can only have a handler while it is registered.
  abbrev pub HandlersRegistered : InterruptController H → Type 0
  HandlersRegistered c = (i : ℕ) → is_some (c.handlers i) ≡ true → c.registered i ≡ true

  -- The served line is then no candidate any more, and the other lines' standing is unchanged.
  pub clear_line-candidate :
      (c : InterruptController H) (i j : ℕ)
      → HandlersRegistered c
      → is_candidate c i ≡ true
      → is_candidate (clear_line c i) j ≡ (if i == j then false else is_candidate c j)
  unfolding clear_line
  clear_line-candidate c i j r h =
      ground (arith, r i, test_bit-clear_bit c.pending_register.value i j)
