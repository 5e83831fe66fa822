-- ===== src/Prelude/Sorting.antt =====
-- Sorting, as std::sort and std::stable_sort order a vector: insertion sort by a test, stable.
use mathlib.Core.List.Perm
use mathlib.Core.List.{Perm}
use mathlib.Core.Path.{◌≡◌}
use mathlib.Core.Bool.{Bool, true, false}
use mathlib.Core.List.{List, [], ◌∷◌}
use mathlib.Core.Logic.{inl, inr}
use embedded_firmware_simula.Prelude.Tests.{if◌then◌else◌, Bool-cases}

abbrev pub All {ℓ κ} : {A : Type ℓ} → (A → Type κ) → List A → Type κ
All P [] = Unit
All P (x ∷ xs) = P x × All P xs

-- `before a b` says that `a` has to stand in front of `b`.
module _ {ℓ} {A : Type ℓ} (before : A → A → Bool) where
  -- The new element goes in front of the first one that it has to precede or may follow by age.
  unfoldable pub insert_sorted : A → List A → List A
  insert_sorted a [] = a ∷ []
  insert_sorted a (x ∷ xs) = if before x a then x ∷ insert_sorted a xs else a ∷ x ∷ xs

  unfoldable pub sort : List A → List A
  unfolding insert_sorted
  sort [] = []
  sort (x ∷ xs) = insert_sorted x (sort xs)

  abbrev pub NoneBefore : A → List A → Type 0
  NoneBefore a [] = Unit {0}
  NoneBefore a (x ∷ xs) = (before x a ≡ false) × NoneBefore a xs

  -- No element has to stand in front of an earlier one.
  abbrev pub IsSorted : List A → Type 0
  IsSorted [] = Unit {0}
  IsSorted (x ∷ xs) = NoneBefore x xs × IsSorted xs

  pub insert_sorted-Perm : (a : A) (xs : List A) → Perm (insert_sorted a xs) (a ∷ xs)
  unfolding insert_sorted
  insert_sorted-Perm a [] = Perm.refl _
  insert_sorted-Perm a (x ∷ xs) = elim (Bool-cases (before x a)) [
    | inl e ↦ rw e (Perm.trans (Perm.cons x (insert_sorted-Perm a xs)) (Perm.swap a x xs))
    | inr e ↦ rw e (Perm.refl _)
  ]

  pub sort-Perm : (xs : List A) → Perm (sort xs) xs
  unfolding sort
  sort-Perm [] = Perm.refl _
  sort-Perm (x ∷ xs) = Perm.trans (insert_sorted-Perm x (sort xs)) (Perm.cons x (sort-Perm xs))

  All-insert_sorted {κ} :
      (P : A → Type κ) (a : A) (xs : List A) → P a → All P xs → All P (insert_sorted a xs)
  unfolding insert_sorted
  All-insert_sorted P a [] p ps = (p, tt)
  All-insert_sorted P a (x ∷ xs) p ps = elim (Bool-cases (before x a)) [
    | inl e ↦ rw e (ps.0, All-insert_sorted P a xs p ps.1)
    | inr e ↦ rw e (p, ps)
  ]

  pub All-sort {κ} : (P : A → Type κ) (xs : List A) → All P xs → All P (sort xs)
  unfolding sort
  All-sort P [] ps = tt
  All-sort P (x ∷ xs) ps = All-insert_sorted P x (sort xs) ps.0 (All-sort P xs ps.1)

  module _ (asymmetric : (a b : A) → before a b ≡ true → before b a ≡ false)
      (linked : (a b c : A) → before b a ≡ false → before c b ≡ false → before c a ≡ false) where
    NoneBefore-linked :
        (a x : A) (xs : List A) → before x a ≡ false → NoneBefore x xs → NoneBefore a xs
    NoneBefore-linked a x [] h n = tt
    NoneBefore-linked a x (y ∷ ys) h n = (linked a x y h n.0, NoneBefore-linked a x ys h n.1)

    NoneBefore-insert_sorted :
        (x a : A) (xs : List A)
        → before a x ≡ false
        → NoneBefore x xs
        → NoneBefore x (insert_sorted a xs)
    unfolding insert_sorted
    NoneBefore-insert_sorted x a [] h n = (h, tt)
    NoneBefore-insert_sorted x a (y ∷ ys) h n = elim (Bool-cases (before y a)) [
      | inl e ↦ rw e (n.0, NoneBefore-insert_sorted x a ys h n.1)
      | inr e ↦ rw e (h, n)
    ]

    insert_sorted-IsSorted : (a : A) (xs : List A) → IsSorted xs → IsSorted (insert_sorted a xs)
    unfolding insert_sorted
    insert_sorted-IsSorted a [] s = (tt, tt)
    insert_sorted-IsSorted a (x ∷ xs) s = elim (Bool-cases (before x a)) [
      | inl e ↦
          rw e (
            NoneBefore-insert_sorted x a xs (asymmetric x a e) s.0,
            insert_sorted-IsSorted a xs s.1,
          )
      | inr e ↦ rw e ((e, NoneBefore-linked a x xs e s.0), s)
    ]

    pub sort-IsSorted : (xs : List A) → IsSorted (sort xs)
    unfolding sort
    sort-IsSorted [] = tt
    sort-IsSorted (x ∷ xs) = insert_sorted-IsSorted x (sort xs) (sort-IsSorted xs)
