-- ===== src/AtomicSet/Laws.antt =====
-- The elements of an `AtomicSet` stay distinct, and its size counts them.
use put_in_pipe.Common.{◌+◌, ◌≡◌, refl, true, false, List, [], ◌∷◌, length, arith}
use put_in_pipe.AtomicSet.{AtomicSet, contains, erase, add, remove, size}

module _ {ℓ} {T : Type ℓ} (dec : Discrete T) where
  abbrev pub Distinct : List T → Type 0
  Distinct [] = Unit
  Distinct (x ∷ xs) = (contains dec x xs ≡ false) × Distinct xs

  pub contains-erase_ne :
      (v w : T) (xs : List T) → contains dec w xs ≡ false → contains dec w (erase dec v xs) ≡ false
  unfolding contains erase
  contains-erase_ne v w [] h = h
  contains-erase_ne v w (x ∷ xs) h = ground (arith, contains-erase_ne v w xs)

  pub erase-Distinct : (v : T) (xs : List T) → Distinct xs → Distinct (erase dec v xs)
  unfolding erase
  erase-Distinct v [] d = d
  erase-Distinct v (x ∷ xs) d =
      ground (arith, erase-Distinct v xs d.1, contains-erase_ne v x xs d.0)

  pub contains-erase_self :
      (v : T) (xs : List T) → Distinct xs → contains dec v (erase dec v xs) ≡ false
  unfolding contains erase
  contains-erase_self v [] d = refl
  contains-erase_self v (x ∷ xs) d = ground (arith, contains-erase_self v xs d.1)

  pub length-erase :
      (v : T) (xs : List T) → contains dec v xs ≡ true → length (erase dec v xs) + 1 ≡ length xs
  unfolding contains erase
  length-erase v [] h = cc
  length-erase v (x ∷ xs) h = ground (arith, length-erase v xs)

  pub erase_absent : (v : T) (xs : List T) → contains dec v xs ≡ false → erase dec v xs ≡ xs
  unfolding contains erase
  erase_absent v [] h = refl
  erase_absent v (x ∷ xs) h = ground (arith, erase_absent v xs)

  pub contains-erase_other :
      (v w : T) (xs : List T) → ¬ (v ≡ w) → contains dec w (erase dec v xs) ≡ contains dec w xs
  unfolding contains erase
  contains-erase_other v w [] h = refl
  contains-erase_other v w (x ∷ xs) h = ground (arith, contains-erase_other v w xs h)

  -- `add` keeps distinct elements distinct, and the value is in afterwards. If it was there nothing
  -- changes and the answer is false; if it was not, the answer is true and the size grows by one.
  pub add_lem :
      (v : T) (s : AtomicSet T)
      → Distinct s.elements
      → Distinct (add dec v s).0.elements
        × (contains dec v (add dec v s).0.elements ≡ true)
        × (contains dec v s.elements ≡ true → (add dec v s) ≡ (s, false))
        × (contains dec v s.elements ≡ false
            → ((add dec v s).1 ≡ true) × (size (add dec v s).0 ≡ size s + 1))
  unfolding add contains
  add_lem v s d = ground arith

  -- `remove` keeps distinct elements distinct, and the value is not in afterwards. If the answer is
  -- true the size shrinks by one; if it is false nothing changes.
  pub remove_lem :
      (v : T) (s : AtomicSet T)
      → Distinct s.elements
      → Distinct (remove dec v s).0.elements
        × (contains dec v (remove dec v s).0.elements ≡ false)
        × ((remove dec v s).1 ≡ true → size (remove dec v s).0 + 1 ≡ size s)
        × ((remove dec v s).1 ≡ false → (remove dec v s).0 ≡ s)
  unfolding remove
  remove_lem v s d = ground (
    arith,
    erase-Distinct v s.elements d,
    contains-erase_self v s.elements d,
    length-erase v s.elements,
    erase_absent v s.elements,
  )
