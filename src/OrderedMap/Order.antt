-- ===== src/OrderedMap/Order.antt =====
-- The order of the keys of a `std::map`, and what it makes of `try_emplace` and `find`.
use put_in_pipe.Common.{
  ℕ, ◌+◌, ◌≤◌, ◌<◌, ◌≡◌, refl, suc, ◌==◌, if◌then◌else◌, Bool, true, false, List, [], ◌∷◌, ◌++◌,
  none, some, length, keep, arith, ap₂, sym, subst, All, Bool-cases, inl, inr,
}
use put_in_pipe.OrderedMap.{find, try_emplace, modify}

module _ {ℓ} {V : Type ℓ} where
  -- The keys ascend, above `lo` and up to `hi`.
  abbrev pub Within : ℕ → ℕ → List (ℕ × V) → Type 0
  Within lo hi [] = lo ≤ hi
  Within lo hi ((i, v) ∷ m) = (lo < i) × Within i hi m

  pub Within-le : (lo hi : ℕ) (m : List (ℕ × V)) → Within lo hi m → lo ≤ hi
  Within-le lo hi [] w = w
  Within-le lo hi ((i, v) ∷ m) w = omega (arith, Within-le i hi m w.1)

  pub Within-lower :
      (lo lo' hi : ℕ) (m : List (ℕ × V)) → lo ≤ lo' → Within lo' hi m → Within lo hi m
  Within-lower lo lo' hi [] h w = omega arith
  Within-lower lo lo' hi ((i, v) ∷ m) h w = (omega arith, w.1)

  pub try_emplace_last :
      (lo hi k : ℕ) (v : V) (m : List (ℕ × V))
      → Within lo hi m
      → hi < k
      → try_emplace k v m ≡ (m ++ (k, v) ∷ [], true)
  unfolding try_emplace
  try_emplace_last lo hi k v [] w h = refl
  try_emplace_last lo hi k v ((i, u) ∷ m) w h =
      ground (arith, try_emplace_last i hi k v m w.1 h, Within-le i hi m w.1)

  pub Within-append :
      (lo hi k : ℕ) (v : V) (m : List (ℕ × V))
      → Within lo hi m
      → hi < k
      → Within lo k (m ++ (k, v) ∷ [])
  Within-append lo hi k v [] w h = (omega arith, omega arith)
  Within-append lo hi k v ((i, u) ∷ m) w h = (w.0, Within-append i hi k v m w.1 h)

  pub Within-keep :
      (p : ℕ × V → Bool) (lo hi : ℕ) (m : List (ℕ × V)) → Within lo hi m → Within lo hi (keep p m)
  Within-keep p lo hi [] w = w
  Within-keep p lo hi ((i, v) ∷ m) w =
      let rest = Within-keep p i hi m w.1 in ground (arith, rest, Within-lower lo i hi (keep p m))

  pub Within-modify :
      (k : ℕ) (f : V → V) (lo hi : ℕ) (m : List (ℕ × V))
      → Within lo hi m
      → Within lo hi (modify k f m)
  unfolding modify
  Within-modify k f lo hi [] w = w
  Within-modify k f lo hi ((i, v) ∷ m) w = ground (arith, Within-modify k f i hi m w.1)

  pub length-modify : (k : ℕ) (f : V → V) (m : List (ℕ × V)) → length (modify k f m) ≡ length m
  unfolding modify
  length-modify k f [] = refl
  length-modify k f ((i, v) ∷ m) = ground (arith, length-modify k f m)

  pub find_above : (lo hi k : ℕ) (m : List (ℕ × V)) → Within lo hi m → hi < k → find k m ≡ none
  unfolding find
  find_above lo hi k [] w h = refl
  find_above lo hi k ((i, v) ∷ m) w h =
      ground (arith, find_above i hi k m w.1 h, Within-le i hi m w.1)

  pub find_below : (lo hi k : ℕ) (m : List (ℕ × V)) → Within lo hi m → k ≤ lo → find k m ≡ none
  unfolding find
  find_below lo hi k [] w h = refl
  find_below lo hi k ((i, v) ∷ m) w h = ground (arith, find_below i hi k m w.1)

  pub find-append :
      (k j : ℕ) (v : V) (m : List (ℕ × V))
      → find k m ≡ none
      → find j (m ++ (k, v) ∷ []) ≡ (if k == j then some v else find j m)
  unfolding find
  find-append k j v [] h = refl
  find-append k j v ((i, u) ∷ m) h = ground (arith, find-append k j v m)

  pub find-modify_self :
      (k : ℕ) (f : V → V) (v : V) (m : List (ℕ × V))
      → find k m ≡ some v
      → find k (modify k f m) ≡ some (f v)
  unfolding find modify
  find-modify_self k f v [] h = cc
  find-modify_self k f v ((i, u) ∷ m) h = ground (arith, find-modify_self k f v m)

  pub find-modify_ne :
      (k j : ℕ) (f : V → V) (m : List (ℕ × V)) → (k == j) ≡ false → find j (modify k f m) ≡ find j m
  unfolding find modify
  find-modify_ne k j f [] h = refl
  find-modify_ne k j f ((i, u) ∷ m) h = ground (arith, find-modify_ne k j f m h)

  -- As many entries as keys leave no gap.
  pub length-Within : (lo hi : ℕ) (m : List (ℕ × V)) → Within lo hi m → length m + lo ≤ hi
  length-Within lo hi [] w = omega arith
  length-Within lo hi ((i, v) ∷ m) w = omega (arith, length-Within i hi m w.1)

  pub find_full :
      (lo hi k : ℕ) (m : List (ℕ × V))
      → Within lo hi m
      → length m + lo ≡ hi
      → lo < k
      → k ≤ hi
      → (v : V) × (find k m ≡ some v)
  unfolding find
  find_full lo hi k [] w e h h' = absurd (omega arith)
  find_full lo hi k ((i, v) ∷ m) w e h h' =
      let bound = length-Within i hi m w.1 in
      let here : i ≡ suc lo = omega arith in
      elim (Bool-cases (i == k)) [
        | inl hit ↦ (v, rw hit)
        | inr miss ↦ rw miss (find_full i hi k m w.1 (omega arith) (ground arith) h')
      ]

  -- What holds of every entry holds of the one that `find` returns.
  pub All-find {κ} :
      (P : ℕ × V → Type κ) (k : ℕ) (v : V) (m : List (ℕ × V))
      → All P m
      → find k m ≡ some v
      → P (k, v)
  unfolding find
  All-find P k v [] a h = cc
  All-find P k v ((i, u) ∷ m) a h = elim (Bool-cases (i == k)) [
    | inl hit ↦ subst P (ap₂ (λ (x : ℕ) (y : V). (x, y)) (ground arith) (ground arith)) a.0
    | inr miss ↦ All-find P k v m a.1 (rw miss at h)
  ]

  pub All-modify {κ} :
      (P : ℕ × V → Type κ) (k : ℕ) (f : V → V) (m : List (ℕ × V))
      → ((v : V) → P (k, v) → P (k, f v))
      → All P m
      → All P (modify k f m)
  unfolding modify
  All-modify P k f [] g a = tt
  All-modify P k f ((i, v) ∷ m) g a = elim (Bool-cases (i == k)) [
    | inl hit ↦ rw hit (
        let e : i ≡ k = ground arith in
        (subst (λ (j : ℕ). P (j, f v)) (sym e) (g v (subst (λ (j : ℕ). P (j, v)) e a.0)), a.1))
    | inr miss ↦ rw miss (a.0, All-modify P k f m g a.1)
  ]

  -- `find` in a filtered map.
  pub find-keep :
      (p : ℕ × V → Bool) (lo hi k : ℕ) (v : V) (m : List (ℕ × V))
      → Within lo hi m
      → find k m ≡ some v
      → find k (keep p m) ≡ (if p (k, v) then some v else none)
  unfolding find
  find-keep p lo hi k v [] w h = cc
  find-keep p lo hi k v ((i, u) ∷ m) w h = elim (Bool-cases (i == k)) [
    | inl hit ↦
        let e : i ≡ k = ground arith in
        let e' : u ≡ v = ground arith in
        let gone = find_below i hi k (keep p m) (Within-keep p i hi m w.1) (omega arith) in
        rw (e, e') (ground (arith, gone, e))
    | inr miss ↦ ground (arith, find-keep p i hi k v m w.1)
  ]

  pub find-keep_absent :
      (p : ℕ × V → Bool) (k : ℕ) (m : List (ℕ × V)) → find k m ≡ none → find k (keep p m) ≡ none
  unfolding find
  find-keep_absent p k [] h = refl
  find-keep_absent p k ((i, u) ∷ m) h = ground (arith, find-keep_absent p k m)
