-- ===== src/OrderedMap.antt =====
-- What buffer.cpp uses of `std::map<size_t, V>`: entries in ascending order of their keys.
pub mod Order
use Prim.Native.Nat.{compare, Ordering}
use put_in_pipe.Common.{
  ℕ, ◌==◌, if◌then◌else◌, Bool, true, false, List, [], ◌∷◌, Option, none, some,
}

module _ {ℓ} {V : Type ℓ} where
  unfoldable pub find : ℕ → List (ℕ × V) → Option V
  find k [] = none
  find k ((j, v) ∷ m) = if j == k then some v else find k m

  -- `try_emplace`: the map, and whether the key was new. An entry that is there stays.
  unfoldable pub try_emplace : ℕ → V → List (ℕ × V) → List (ℕ × V) × Bool
  try_emplace k v [] = ((k, v) ∷ [], true)
  try_emplace k v ((j, w) ∷ m) =
      let rest = try_emplace k v m in
      elim (compare k j) [
        | Ordering.lt ↦ ((k, v) ∷ (j, w) ∷ m, true)
        | Ordering.eq ↦ ((j, w) ∷ m, false)
        | Ordering.gt ↦ ((j, w) ∷ rest.0, rest.1)
      ]

  -- A change of the value that `iter->second` names.
  unfoldable pub modify : ℕ → (V → V) → List (ℕ × V) → List (ℕ × V)
  modify k f [] = []
  modify k f ((j, v) ∷ m) = if j == k then (j, f v) ∷ m else (j, v) ∷ modify k f m
