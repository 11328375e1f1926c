-- ===== src/Json.antt =====
-- JSON values as crow::json::wvalue builds them. A value that was never assigned is null; assigning
-- to numbered elements makes it a list. Texts are bytes, keys are literals of the source.
use put_in_pipe.Common.{ℕ, Bool, List, [], ◌∷◌, String, Bytes}

mutual
  pub data Json : Type 0 where
    null : Json
    bool : Bool → Json
    num : ℕ → Json
    text : Bytes → Json
    arr : Items → Json
    obj : Fields → Json

  pub data Items : Type 0 where
    nil : Items
    cons : Json → Items → Items

  pub data Fields : Type 0 where
    end : Fields
    field : String → Json → Fields → Fields

-- The elements set by `value[0] = …; value[1] = …`, for each member of a list.
abbrev pub items {ℓ} : {A : Type ℓ} → (A → Json) → List A → Items
items f [] = nil
items f (x ∷ xs) = cons (f x) (items f xs)

-- What such a loop makes of a default value.
abbrev pub assigned {ℓ} : {A : Type ℓ} → (A → Json) → List A → Json
assigned f [] = null
assigned f (x ∷ xs) = arr (items f (x ∷ xs))
