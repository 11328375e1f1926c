-- ===== src/Keyed.antt =====
-- What the lists of clients and of sessions use of `std::unordered_map<std::string, V>`: entries by key.
-- The order of the entries is never looked at.
pub mod Laws
use put_in_pipe.Common.{Bytes, bytes_discrete, List, [], ◌∷◌, Option, none, some}

module _ {ℓ} {V : Type ℓ} where
  -- `find`.
  unfoldable pub lookup : Bytes → List (Bytes × V) → Option V
  lookup k [] = none
  lookup k ((j, v) ∷ m) = elim (bytes_discrete j k) [ yes _ ↦ some v | no _ ↦ lookup k m ]

  -- `erase` of the entry that `find` gives.
  unfoldable pub erase_key : Bytes → List (Bytes × V) → List (Bytes × V)
  erase_key k [] = []
  erase_key k ((j, v) ∷ m) = elim (bytes_discrete j k) [ yes _ ↦ m | no _ ↦ (j, v) ∷ erase_key k m ]

  -- A change of the value that an entry's shared pointer leads to.
  unfoldable pub alter_key : Bytes → (V → V) → List (Bytes × V) → List (Bytes × V)
  alter_key k f [] = []
  alter_key k f ((j, v) ∷ m) = elim (bytes_discrete j k) [
    | yes _ ↦ (j, f v) ∷ m
    | no _ ↦ (j, v) ∷ alter_key k f m
  ]
