-- ===== src/Keyed/Laws.antt =====
-- Finding an entry after another was put in or erased.
use put_in_pipe.Common.{
  Bytes, bytes_discrete, List, [], ◌∷◌, none, some, ◌≡◌, ◌≢◌, refl, length, ◌+◌, arith, All, subst,
  sym,
}
use put_in_pipe.Keyed.{lookup, erase_key, alter_key}

module _ {ℓ} {V : Type ℓ} where
  -- No key has two entries.
  abbrev pub SingleKeys : List (Bytes × V) → Type ℓ
  SingleKeys [] = Unit
  SingleKeys ((j, v) ∷ m) = (lookup j m ≡ none) × SingleKeys m

  pub lookup-cons_self : (k : Bytes) (v : V) (m : List (Bytes × V)) → lookup k ((k, v) ∷ m) ≡ some v
  unfolding lookup
  lookup-cons_self k v m = ground arith

  pub lookup-cons_other :
      (k j : Bytes) (v : V) (m : List (Bytes × V)) → k ≢ j → lookup j ((k, v) ∷ m) ≡ lookup j m
  unfolding lookup
  lookup-cons_other k j v m h = ground arith

  pub lookup-erase_self :
      (k : Bytes) (m : List (Bytes × V)) → SingleKeys m → lookup k (erase_key k m) ≡ none
  unfolding lookup erase_key
  lookup-erase_self k [] d = refl
  lookup-erase_self k ((j, v) ∷ m) d = ground (arith, lookup-erase_self k m d.1)

  pub lookup-erase_other :
      (k j : Bytes) (m : List (Bytes × V)) → k ≢ j → lookup j (erase_key k m) ≡ lookup j m
  unfolding lookup erase_key
  lookup-erase_other k j [] h = refl
  lookup-erase_other k j ((i, v) ∷ m) h = ground (arith, lookup-erase_other k j m h)

  pub lookup-erase_absent :
      (k j : Bytes) (m : List (Bytes × V)) → lookup j m ≡ none → lookup j (erase_key k m) ≡ none
  unfolding lookup erase_key
  lookup-erase_absent k j [] h = h
  lookup-erase_absent k j ((i, v) ∷ m) h = ground (arith, lookup-erase_absent k j m)

  pub erase-SingleKeys :
      (k : Bytes) (m : List (Bytes × V)) → SingleKeys m → SingleKeys (erase_key k m)
  unfolding lookup erase_key
  erase-SingleKeys k [] d = d
  erase-SingleKeys k ((j, v) ∷ m) d =
      ground (arith, erase-SingleKeys k m d.1, lookup-erase_absent k j m d.0)

  pub length-erase_key :
      (k : Bytes) (m : List (Bytes × V)) (v : V)
      → lookup k m ≡ some v
      → length (erase_key k m) + 1 ≡ length m
  unfolding lookup erase_key
  length-erase_key k [] v h = cc
  length-erase_key k ((j, w) ∷ m) v h = ground (arith, length-erase_key k m v)

  pub lookup-alter_key :
      (k j : Bytes) (f : V → V) (m : List (Bytes × V))
      → lookup j (alter_key k f m) ≡ elim (bytes_discrete k j) [
        | yes _ ↦ elim (lookup j m) [ none ↦ none | some v ↦ some (f v) ]
        | no _ ↦ lookup j m
      ]
  unfolding lookup alter_key
  lookup-alter_key k j f [] = ground arith
  lookup-alter_key k j f ((i, v) ∷ m) = ground (arith, lookup-alter_key k j f m)

  pub lookup-alter_none :
      (k j : Bytes) (f : V → V) (m : List (Bytes × V))
      → lookup j m ≡ none
      → lookup j (alter_key k f m) ≡ none
  unfolding lookup alter_key
  lookup-alter_none k j f [] h = refl
  lookup-alter_none k j f ((i, v) ∷ m) h = ground (arith, lookup-alter_none k j f m)

  pub alter-SingleKeys :
      (k : Bytes) (f : V → V) (m : List (Bytes × V)) → SingleKeys m → SingleKeys (alter_key k f m)
  unfolding alter_key
  alter-SingleKeys k f [] d = d
  alter-SingleKeys k f ((j, v) ∷ m) d =
      ground (arith, alter-SingleKeys k f m d.1, lookup-alter_none k j f m d.0)

  pub length-alter_key :
      (k : Bytes) (f : V → V) (m : List (Bytes × V)) → length (alter_key k f m) ≡ length m
  unfolding alter_key
  length-alter_key k f [] = refl
  length-alter_key k f ((j, v) ∷ m) = ground (arith, length-alter_key k f m)

  pub alter-All {κ} :
      (P : Bytes × V → Type κ) (k : Bytes) (f : V → V) (m : List (Bytes × V))
      → ((v : V) → P (k, v) → P (k, f v))
      → All P m
      → All P (alter_key k f m)
  unfolding alter_key
  alter-All P k f [] h a = tt
  alter-All P k f ((j, v) ∷ m) h a =
      elim (bytes_discrete j k)
        as (λ d. All P (elim d [ yes _ ↦ (j, f v) ∷ m | no _ ↦ (j, v) ∷ alter_key k f m ])) [
          | yes e ↦ (
            subst (λ (i : Bytes). P (i, f v)) (sym e) (h v (subst (λ (i : Bytes). P (i, v)) e a.0)),
            a.1,
          )
          | no _ ↦ (a.0, alter-All P k f m h a.1)
        ]

  pub erase-All {κ} :
      (P : Bytes × V → Type κ) (k : Bytes) (m : List (Bytes × V)) → All P m → All P (erase_key k m)
  unfolding erase_key
  erase-All P k [] a = tt
  erase-All P k ((j, v) ∷ m) a = ground (arith, erase-All P k m a.1)

  pub All-lookup {κ} :
      (P : Bytes × V → Type κ) (k : Bytes) (v : V) (m : List (Bytes × V))
      → All P m
      → lookup k m ≡ some v
      → P (k, v)
  unfolding lookup
  All-lookup P k v [] a e = cc
  All-lookup P k v ((j, w) ∷ m) a e = ground (arith, All-lookup P k v m a.1)
