-- ===== src/Publisher/Laws.antt =====
-- Who gets an event, and how often.
use put_in_pipe.Common.{
  ℕ, suc, ◌+◌, ◌≤◌, ◌≡◌, refl, Bool, true, false, List, [], ◌∷◌, ◌++◌, some, keep, any, map,
  if◌then◌else◌, arith, Bool-cases, inl, inr,
}
use put_in_pipe.Publisher.{Publisher, refers, has_subscriber, add_subscriber, notify_subscribers}

module _ {ℓ} {S : Type ℓ} (dec : Discrete S) (alive : S → Bool) where
  -- How many entries stand for the subscriber.
  unfoldable pub entries : S → List S → ℕ
  entries s [] = 0
  entries s (x ∷ xs) = elim (dec x s) [ yes _ ↦ suc (entries s xs) | no _ ↦ entries s xs ]

  -- How many deliveries go to the subscriber.
  unfoldable pub deliveries {κ} : {E : Type κ} → S → List (S × E) → ℕ
  deliveries s [] = 0
  deliveries s ((x, e) ∷ xs) = elim (dec x s) [
    | yes _ ↦ suc (deliveries s xs)
    | no _ ↦ deliveries s xs
  ]

  entries-append : (s : S) (xs ys : List S) → entries s (xs ++ ys) ≡ entries s xs + entries s ys
  unfolding entries
  entries-append s [] ys = omega arith
  entries-append s (x ∷ xs) ys = ground (arith, entries-append s xs ys)

  entries-absent :
      (s : S) (xs : List S)
      → alive s ≡ true
      → any (refers dec alive s) xs ≡ false
      → entries s xs ≡ 0
  unfolding entries refers
  entries-absent s [] a h = refl
  entries-absent s (x ∷ xs) a h = ground (arith, entries-absent s xs a)

  entries-present : (s : S) (xs : List S) → any (refers dec alive s) xs ≡ true → 1 ≤ entries s xs
  unfolding entries refers
  entries-present s [] h = cc
  entries-present s (x ∷ xs) h = ground (arith, entries-present s xs)

  entries-single : (s t : S) → entries t (s ∷ []) ≡ elim (dec s t) [ yes _ ↦ 1 | no _ ↦ 0 ]
  unfolding entries
  entries-single s t = refl

  deliveries-keep {κ} :
      {E : Type κ} (e : E) (s : S) (xs : List S)
      → alive s ≡ true
      → deliveries s (map (λ x. (x, e)) (keep alive xs)) ≡ entries s xs
  unfolding deliveries entries
  deliveries-keep e s [] a = refl
  deliveries-keep e s (x ∷ xs) a = ground (arith, deliveries-keep e s xs a)

  deliveries-dead {κ} :
      {E : Type κ} (e : E) (s : S) (xs : List S)
      → alive s ≡ false
      → deliveries s (map (λ x. (x, e)) (keep alive xs)) ≡ 0
  unfolding deliveries
  deliveries-dead e s [] a = refl
  deliveries-dead e s (x ∷ xs) a = ground (arith, deliveries-dead e s xs a)

  -- Every live subscriber is entered at most once.
  abbrev pub Unique : Publisher S → Type ℓ
  Unique p = (s : S) → alive s ≡ true → entries s p.subscribers ≤ 1

  -- Adding a live subscriber enters it exactly once, also if it was there; it changes the entries of
  -- nobody else.
  pub add_subscriber_lem :
      (p : Publisher S) (s t : S)
      → Unique p
      → alive s ≡ true
      → alive t ≡ true
      → entries t (add_subscriber dec alive (some s) p).subscribers
        ≡ elim (dec s t) [ yes _ ↦ 1 | no _ ↦ entries t p.subscribers ]
  unfolding add_subscriber has_subscriber entries
  add_subscriber_lem p s t u a b = elim (Bool-cases (any (refers dec alive s) p.subscribers)) [
    | inl found ↦ rw found (old (entries-present s p.subscribers found))
    | inr fresh ↦ rw (fresh, entries-append t p.subscribers (s ∷ [])) (new fresh)
  ]
    where
      old :
          1 ≤ entries s p.subscribers
          → entries t p.subscribers ≡ elim (dec s t) [ yes _ ↦ 1 | no _ ↦ entries t p.subscribers ]
      old some_entry = ground (arith, u t b)

      new :
          any (refers dec alive s) p.subscribers ≡ false
          → entries t p.subscribers + elim (dec s t) [ yes _ ↦ suc 0 | no _ ↦ 0 ]
            ≡ elim (dec s t) [ yes _ ↦ 1 | no _ ↦ entries t p.subscribers ]
      new fresh = ground (arith, entries-absent s p.subscribers a fresh)

  -- A notification reaches every live subscriber as often as it is entered, and nobody whose
  -- subscriber is gone.
  pub notify_lem {κ} :
      {E : Type κ} (e : E) (p : Publisher S) (s : S)
      → deliveries s (notify_subscribers dec alive e p).1
        ≡ (if alive s then entries s p.subscribers else 0)
  unfolding notify_subscribers
  notify_lem e p s = elim (Bool-cases (alive s)) [
    | inl a ↦ rw a (deliveries-keep e s p.subscribers a)
    | inr a ↦ rw a (deliveries-dead e s p.subscribers a)
  ]
