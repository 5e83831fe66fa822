-- ===== src/Interrupts/Drain.antt =====
-- Repeated dispatching (src/kernel/interrupt_controller.cpp).
use native.Mathlib.Decide.{ℕ_discrete as dec_eq}
use embedded_firmware_simula.Prelude.{
  ℕ, zero, suc, ◌+◌, ◌<◌, ◌≤◌, ◌≡◌, inl, inr, refl, ◌∙◌, sym, ==_self, true, false, ◌==◌,
  if◌then◌else◌, arith, ==_iff, ==_ne, List, [], ◌∷◌, map, Option, ap, Bool-cases, ◌⊎◌,
}
use mathlib.Core.Path.{subst}
use embedded_firmware_simula.Prelude.Members.{has, Distinct, tabulate}
use embedded_firmware_simula.Prelude.Sorting.{All}
use embedded_firmware_simula.Interrupts.{InterruptController, dispatch, clear_line}
use embedded_firmware_simula.Interrupts.Dispatch.{
  Precedes, is_candidate, HandlersRegistered, clear_line-candidate, dispatch_lem,
}

module _ {H : Type 0} where
  -- How many of the lines from `i` on, `n` of them, are candidates.
  unfoldable pub candidates : ℕ → ℕ → InterruptController H → ℕ
  candidates zero i c = 0
  candidates (suc n) i c = (if is_candidate c i then 1 else 0) + candidates n (i + 1) c

  candidates-clear_above :
      (c : InterruptController H) (k n i : ℕ)
      → HandlersRegistered c
      → is_candidate c k ≡ true
      → k < i
      → candidates n i (clear_line c k) ≡ candidates n i c
  unfolding candidates
  candidates-clear_above c k zero i r h lt = refl
  candidates-clear_above c k (suc n) i r h lt =
      let apart : (k == i) ≡ false = ground arith in
      let same : is_candidate (clear_line c k) i ≡ is_candidate c i =
        clear_line-candidate c k i r h ∙ rw apart in
      rw (same, candidates-clear_above c k n (i + 1) r h (omega arith))

  candidates-clear :
      (c : InterruptController H) (k n i : ℕ)
      → HandlersRegistered c
      → is_candidate c k ≡ true
      → i ≤ k
      → k < i + n
      → candidates n i (clear_line c k) + 1 ≡ candidates n i c
  unfolding candidates
  candidates-clear c k zero i r h le lt = absurd (omega arith)
  candidates-clear c k (suc n) i r h le lt = elim (dec_eq k i) [
    | yes e ↦
        let gone : is_candidate (clear_line c k) i ≡ false =
          clear_line-candidate c k i r h ∙ rw ((==_iff k i).1 e) in
        let was : is_candidate c i ≡ true = rw e at h in
        simp (gone, was, candidates-clear_above c k n (i + 1) r h (omega arith)) (omega arith)
    | no d ↦
        let same : is_candidate (clear_line c k) i ≡ is_candidate c i =
          clear_line-candidate c k i r h ∙ rw (==_ne k i d) in
        let rest = candidates-clear c k n (i + 1) r h (ground arith) (omega arith) in
        rw same (omega (arith, rest))
  ]

  candidates-zero :
      (c : InterruptController H) (n i : ℕ)
      → ((j : ℕ) → is_candidate c j ≡ false)
      → candidates n i c ≡ 0
  unfolding candidates
  candidates-zero c zero i h = refl
  candidates-zero c (suc n) i h = simp (h i, candidates-zero c n (i + 1) h)

  candidates-pos :
      (c : InterruptController H) (k : ℕ)
      → HandlersRegistered c
      → is_candidate c k ≡ true
      → candidates 32 0 (clear_line c k) + 1 ≡ candidates 32 0 c
  candidates-pos c k r h = candidates-clear c k 32 0 r h (omega arith) (ground arith)

  -- `dispatch` called `n` times, with handlers that leave the controller alone.
  unfoldable pub dispatch_times : ℕ → InterruptController H → InterruptController H
  dispatch_times zero c = c
  dispatch_times (suc n) c = dispatch_times n (dispatch c).0

  clear_line-HandlersRegistered :
      (c : InterruptController H) (i : ℕ)
      → HandlersRegistered c
      → HandlersRegistered (clear_line c i)
  unfolding clear_line
  clear_line-HandlersRegistered c i r = λ j h. ground (arith, r j)

  -- What the same dispatches call, in turn.
  unfoldable pub called : ℕ → InterruptController H → List (Option H)
  called zero c = []
  called (suc n) c = (dispatch c).2 ∷ called n (dispatch c).0

  unfoldable pub clear_lines : InterruptController H → List ℕ → InterruptController H
  clear_lines c [] = c
  clear_lines c (i ∷ is) = clear_lines (clear_line c i) is

  -- Every line of the list precedes the later ones.
  unfoldable pub InTurn : InterruptController H → List ℕ → Type 0
  InTurn c [] = Unit
  InTurn c (i ∷ is) = All (Precedes c i) is × InTurn c is

  -- The lines are the candidates, each once and in turn, and the dispatches serve them.
  pub record Serves (n : ℕ) (c : InterruptController H) (lines : List ℕ) : Type 0 where
    pub each : (j : ℕ) → has lines j ≡ is_candidate c j
    pub once : Distinct lines
    pub in_turn : InTurn c lines
    pub calls : called n c ≡ map c.handlers lines
    pub clears : dispatch_times n c ≡ clear_lines c lines

  clear_line-handlers : (c : InterruptController H) (i : ℕ) → (clear_line c i).handlers ≡ c.handlers
  unfolding clear_line
  clear_line-handlers c i = elim (Bool-cases (c.registered i)) [
    | inl e ↦ rw e refl
    | inr e ↦ rw e refl
  ]

  clear_line-priorities :
      (c : InterruptController H) (i : ℕ) → (clear_line c i).priorities ≡ c.priorities
  unfolding clear_line
  clear_line-priorities c i = elim (Bool-cases (c.registered i)) [
    | inl e ↦ rw e refl
    | inr e ↦ rw e refl
  ]

  All-Precedes :
      (c : InterruptController H) (k i : ℕ) (is : List ℕ)
      → All (Precedes (clear_line c k) i) is
      → All (Precedes c i) is
  All-Precedes c k i [] p = tt
  All-Precedes c k i (x ∷ xs) p = (
    subst (λ f. (f i < f x) ⊎ ((f i ≡ f x) × (i ≤ x))) (clear_line-priorities c k) p.0,
    All-Precedes c k i xs p.1,
  )

  InTurn-clear :
      (c : InterruptController H) (k : ℕ) (is : List ℕ) → InTurn (clear_line c k) is → InTurn c is
  unfolding InTurn
  InTurn-clear c k [] t = tt
  InTurn-clear c k (i ∷ is) t = (All-Precedes c k i is t.0, InTurn-clear c k is t.1)

  -- A served line in front of those that are served afterwards.
  Serves-first :
      (n : ℕ) (c : InterruptController H) (i : ℕ) (lines : List ℕ)
      → HandlersRegistered c
      → dispatch c ≡ (clear_line c i, true, c.handlers i)
      → is_candidate c i ≡ true
      → ((j : ℕ) → (is_candidate c j ≡ false) ⊎ Precedes c i j)
      → Serves n (clear_line c i) lines
      → Serves (suc n) c (i ∷ lines)
  unfolding called clear_lines InTurn Distinct dispatch_times
  Serves-first n c i lines r e here best s =
      let left : (j : ℕ) → has lines j ≡ (if i == j then false else is_candidate c j) =
        λ j. s.each j ∙ clear_line-candidate c i j r here in
      record {
        each = λ j. elim (Bool-cases (i == j)) [
          | inl q ↦ rw q (sym (subst (λ k. is_candidate c k ≡ true) ((==_iff i j).0 q) here))
          | inr q ↦ rw q (left j ∙ rw q refl)
        ];
        once = (left i ∙ rw (==_self i) refl, s.once);
        in_turn = (
          tabulate (Precedes c i) lines (λ j m. first j (left j) m (best j)),
          InTurn-clear c i lines s.in_turn,
        );
        calls = rw e (
            ap (λ hs. c.handlers i ∷ hs)
              (s.calls ∙ ap (λ f. map f lines) (clear_line-handlers c i)));
        clears = rw e s.clears;
      }
    where
      first :
          (j : ℕ)
          → has lines j ≡ (if i == j then false else is_candidate c j)
          → has lines j ≡ true
          → (is_candidate c j ≡ false) ⊎ Precedes c i j
          → Precedes c i j
      first j l m (inl idle) = ground (arith, l, m, idle)
      first j l m (inr p) = p

  -- A controller whose handlers belong to registered lines, and leave it alone: as many dispatches
  -- as lines are enabled, pending and handled call the handlers of these lines, each once, by
  -- priority and then by number, and clear their pending bits and nothing else. The next dispatch
  -- returns false.
  pub dispatch_times-drains :
      (n : ℕ) (c : InterruptController H)
      → HandlersRegistered c
      → candidates 32 0 c ≡ n
      → (lines : List ℕ) × Serves n c lines × ((dispatch (dispatch_times n c)).1 ≡ false)
  unfolding dispatch_times called clear_lines InTurn Distinct
  dispatch_times-drains zero c r e = elim (dispatch_lem c) [
    | inl (d, none_waits) ↦ (
      [],
      record {
        each = λ j. sym (none_waits j);
        once = tt;
        in_turn = tt;
        calls = refl;
        clears = refl;
      },
      rw d refl,
    )
    | inr (i, d, here, best) ↦ absurd (omega (arith, candidates-pos c i r here, e))
  ]
  dispatch_times-drains (suc n) c r e = elim (dispatch_lem c) [
    | inl (d, none_waits) ↦ absurd (omega (arith, candidates-zero c 32 0 none_waits, e))
    | inr (i, d, here, best) ↦
        let (lines, s, over) =
          dispatch_times-drains n (clear_line c i) (clear_line-HandlersRegistered c i r)
            (omega (arith, candidates-pos c i r here, e)) in
        (
          i ∷ lines,
          Serves-first n c i lines r d here best s,
          ap (λ x. (dispatch (dispatch_times n x.0)).1) d ∙ over,
        )
  ]
