-- ===== src/Rtos/Queue.antt =====
-- A ready queue: a vector of task ids without duplicates.
use embedded_firmware_simula.Prelude.{
  ℕ, ◌≡◌, refl, Bool, true, false, List, [], ◌∷◌, ◌++◌, ◌==◌, if◌then◌else◌, arith,
}

-- `std::find(vec, id) != vec.end()`
unfoldable pub contains : ℕ → List ℕ → Bool
contains i [] = false
contains i (x ∷ xs) = if x == i then true else contains i xs

-- `vec.push_back(id)` unless it is there.
unfoldable pub push_back_new : ℕ → List ℕ → List ℕ
unfolding contains
push_back_new i xs = if contains i xs then xs else xs ++ i ∷ []

-- `vec.erase(it)` of the first occurrence.
unfoldable pub erase : ℕ → List ℕ → List ℕ
erase i [] = []
erase i (x ∷ xs) = if x == i then xs else x ∷ erase i xs

abbrev pub Distinct : List ℕ → Type 0
Distinct [] = Unit {0}
Distinct (x ∷ xs) = (contains x xs ≡ false) × Distinct xs

pub contains-append :
    (i a : ℕ) (xs : List ℕ) → contains i (xs ++ a ∷ []) ≡ (if a == i then true else contains i xs)
unfolding contains
contains-append i a [] = refl
contains-append i a (x ∷ xs) = ground (arith, contains-append i a xs)

pub Distinct-append :
    (a : ℕ) (xs : List ℕ) → contains a xs ≡ false → Distinct xs → Distinct (xs ++ a ∷ [])
unfolding contains
Distinct-append a [] h d = (refl, tt)
Distinct-append a (x ∷ xs) h d =
    (ground (arith, contains-append x a xs), Distinct-append a xs (ground arith) d.1)

pub contains-push_back_new :
    (i a : ℕ) (xs : List ℕ)
    → contains i (push_back_new a xs) ≡ (if a == i then true else contains i xs)
unfolding push_back_new
contains-push_back_new i a xs = ground (arith, contains-append i a xs)

pub Distinct-push_back_new : (a : ℕ) (xs : List ℕ) → Distinct xs → Distinct (push_back_new a xs)
unfolding push_back_new
Distinct-push_back_new a xs d = ground (arith, Distinct-append a xs)

pub contains-erase :
    (i a : ℕ) (xs : List ℕ)
    → Distinct xs
    → contains i (erase a xs) ≡ (if a == i then false else contains i xs)
unfolding contains erase
contains-erase i a [] d = ground arith
contains-erase i a (x ∷ xs) d = ground (arith, contains-erase i a xs d.1)

pub Distinct-erase : (a : ℕ) (xs : List ℕ) → Distinct xs → Distinct (erase a xs)
unfolding erase
Distinct-erase a [] d = tt
Distinct-erase a (x ∷ xs) d = ground (arith, Distinct-erase a xs d.1, contains-erase x a xs d.1)

-- A queue whose front goes to the back.
pub contains-rotate : (i x : ℕ) (xs : List ℕ) → contains i (xs ++ x ∷ []) ≡ contains i (x ∷ xs)
unfolding contains
contains-rotate i x xs = ground (arith, contains-append i x xs)

pub Distinct-rotate : (x : ℕ) (xs : List ℕ) → Distinct (x ∷ xs) → Distinct (xs ++ x ∷ [])
Distinct-rotate x xs d = Distinct-append x xs d.0 d.1
