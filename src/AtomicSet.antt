-- ===== src/AtomicSet.antt =====
-- atomicset.h: `AtomicSet<T>`, a `std::set` behind a mutex. Each operation is one critical section.
-- The elements are never iterated over, so the order of the tree is left out.
pub mod Laws
use put_in_pipe.Common.{
  ℕ, ◌≡◌, refl, ite, Bool, true, false, not, ◌||◌, List, [], ◌∷◌, length, ◌+◌, ◌≤◌, suc, arith, ◌≢◌,
}

pub record AtomicSet {ℓ} (T : Type ℓ) : Type ℓ where
  pub elements : List T

module _ {ℓ} {T : Type ℓ} where
  abbrev pub empty : AtomicSet T
  empty = record { elements = [] }

  abbrev pub size : AtomicSet T → ℕ
  size s = length s.elements

module _ {ℓ} {T : Type ℓ} (dec : Discrete T) where
  unfoldable pub contains : T → List T → Bool
  contains v [] = false
  contains v (x ∷ xs) = elim (dec x v) [ yes _ ↦ true | no _ ↦ contains v xs ]

  unfoldable pub erase : T → List T → List T
  erase v [] = []
  erase v (x ∷ xs) = elim (dec x v) [ yes _ ↦ xs | no _ ↦ x ∷ erase v xs ]

  -- Whether the value was there.
  unfoldable pub remove : T → AtomicSet T → AtomicSet T × Bool
  remove v s = (record { elements = erase v s.elements }, contains v s.elements)

  -- Whether the value was new.
  unfoldable pub add : T → AtomicSet T → AtomicSet T × Bool
  add v s = elim (contains v s.elements) [
    | true ↦ (s, false)
    | false ↦ (record { elements = v ∷ s.elements }, true)
  ]
