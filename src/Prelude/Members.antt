-- ===== src/Prelude/Members.antt =====
-- Vectors of pointers that hold each once: the test for one, its removal, and the laws of both.
use Prim.Native.Nat.{ℕ}
use mathlib.Core.Path.{◌≡◌, refl, sym, ◌∙◌, subst}
use mathlib.Core.Logic.{inl, inr}
use mathlib.Core.Bool.{Bool, true, false}
use mathlib.Core.List.{List, [], ◌∷◌, ◌++◌}
use native.Mathlib.Omega.{arith}
use embedded_firmware_simula.Prelude.Tests.{◌==◌, if◌then◌else◌, Bool-cases, ==_iff, ==_self}
use embedded_firmware_simula.Prelude.Sorting.{All}

-- `std::find(...) != end()`
abbrev pub has : List ℕ → ℕ → Bool
has [] i = false
has (x ∷ xs) i = if x == i then true else has xs i

-- `erase(std::find(...))`.
abbrev pub without : List ℕ → ℕ → List ℕ
without [] i = []
without (x ∷ xs) i = if x == i then xs else x ∷ without xs i

-- None twice.
unfoldable pub Distinct : List ℕ → Type 0
Distinct [] = Unit
Distinct (d ∷ ds) = (has ds d ≡ false) × Distinct ds

pub has-append :
    (ds : List ℕ) (d x : ℕ) → has (ds ++ x ∷ []) d ≡ (if has ds d then true else x == d)
has-append [] d x = ground arith
has-append (y ∷ ds) d x = ground (arith, has-append ds d x)

pub append-Distinct :
    (ds : List ℕ) (x : ℕ) → Distinct ds → has ds x ≡ false → Distinct (ds ++ x ∷ [])
unfolding Distinct
append-Distinct [] x d fresh = (refl, tt)
append-Distinct (y ∷ ds) x d fresh =
    (ground (arith, has-append ds y x, d.0), append-Distinct ds x d.1 (ground arith))

pub has-without : (ds : List ℕ) (d a : ℕ) → (a == d) ≡ false → has (without ds d) a ≡ has ds a
has-without [] d a ne = refl
has-without (y ∷ ds) d a ne = ground (arith, has-without ds d a ne)

has-without_le : (ds : List ℕ) (d a : ℕ) → has ds a ≡ false → has (without ds d) a ≡ false
has-without_le [] d a gone = refl
has-without_le (y ∷ ds) d a gone = elim (Bool-cases (has ds a)) [
  | inl e ↦ ground (arith, e, gone)
  | inr e ↦ ground (arith, gone, has-without_le ds d a e)
]

pub without-Distinct : (ds : List ℕ) (d : ℕ) → Distinct ds → Distinct (without ds d)
unfolding Distinct
without-Distinct [] d p = tt
without-Distinct (y ∷ ds) d p = elim (Bool-cases (y == d)) [
  | inl e ↦ rw e p.1
  | inr e ↦ rw e (has-without_le ds d y p.0, without-Distinct ds d p.1)
]

-- What holds of all members holds of each, and the other way round.
pub lookup {ℓ} : (P : ℕ → Type ℓ) (xs : List ℕ) → All P xs → (i : ℕ) → has xs i ≡ true → P i
lookup P (x ∷ xs) (p, ps) i h = elim (Bool-cases (x == i)) [
  | inl e ↦ subst P ((==_iff x i).0 e) p
  | inr e ↦ lookup P xs ps i (rw e at h)
]
lookup P [] ps i h = cc h

pub tabulate {ℓ} : (P : ℕ → Type ℓ) (xs : List ℕ) → ((i : ℕ) → has xs i ≡ true → P i) → All P xs
tabulate P [] f = tt
tabulate P (x ∷ xs) f = (f x (rw (==_self x) refl), tabulate P xs (λ i h. f i (ground (arith, h))))

-- What is removed is gone.
pub has-without_self : (xs : List ℕ) (i : ℕ) → Distinct xs → has (without xs i) i ≡ false
unfolding Distinct
has-without_self [] i d = refl
has-without_self (x ∷ xs) i d = elim (Bool-cases (x == i)) [
  | inl e ↦ rw e (subst (λ j. has xs j ≡ false) ((==_iff x i).0 e) d.0)
  | inr e ↦ rw (e, e) (has-without_self xs i d.1)
]

-- What holds of all holds of those that are left, and of those and a new one, if it holds of that.
-- The property may change for the one that is removed or added.
pub All-without :
    (P Q : ℕ → Type 0) (xs : List ℕ) (i : ℕ)
    → Distinct xs
    → ((j : ℕ) → (i == j) ≡ false → P j → Q j)
    → All P xs
    → All Q (without xs i)
All-without P Q xs i d f ps = tabulate Q (without xs i) (λ j h. elim (Bool-cases (i == j)) [
  | inl e ↦
      cc (subst (λ k. has (without xs i) k ≡ false) ((==_iff i j).0 e) (has-without_self xs i d), h)
  | inr e ↦ f j e (lookup P xs ps j (sym (has-without xs i j (ground (arith, e))) ∙ h))
])

pub All-append :
    (P Q : ℕ → Type 0) (xs : List ℕ) (i : ℕ)
    → ((j : ℕ) → (i == j) ≡ false → P j → Q j)
    → Q i
    → All P xs
    → All Q (xs ++ i ∷ [])
All-append P Q xs i f q ps = tabulate Q (xs ++ i ∷ []) (λ j h. elim (Bool-cases (i == j)) [
  | inl e ↦ subst Q ((==_iff i j).0 e) q
  | inr e ↦ f j e (lookup P xs ps j (ground (arith, has-append xs j i, h, e)))
])
