-- ===== src/Client/AckRuns.antt =====
-- Sequences of calls on the pending acknowledgements, and how callbacks are counted.
use put_in_pipe.Common.{
  ℕ, suc, ◌+◌, ◌≤◌, ◌<◌, ◌≡◌, refl, Bool, true, false, List, [], ◌∷◌, ◌++◌, map, Option, none, some,
  if◌then◌else◌, arith, Option-cases, inl, inr, sym,
}
use put_in_pipe.Client.PendingAcks.{
  Acks, find_ack, erase_ack, register, resolve_ack, process_ack, on_fallback,
}

-- What happens to the pending acknowledgements: a message is sent, with a connection or without (then
-- its callback is resolved at once); the client acknowledges; a fallback timer completes.
pub data AckCall {ℓ} (C : Type ℓ) : Type ℓ where
  sends : C → Bool → AckCall C
  acknowledges : ℕ → AckCall C
  falls_back : Bool → ℕ → AckCall C

module _ {ℓ} {C : Type ℓ} where
  abbrev pub listed : Option C → List C
  listed none = []
  listed (some c) = c ∷ []

  -- The callbacks that run during a call.
  unfoldable pub ack_step : AckCall C → Acks C → Acks C × List C
  ack_step (sends callback true) a = ((register callback a).0, [])
  ack_step (sends callback false) a =
      let r = register callback a in let s = resolve_ack r.1 r.0 in (s.0, listed s.1)
  ack_step (acknowledges id) a = let r = process_ack id a in (r.0, listed r.1)
  ack_step (falls_back error id) a = let r = on_fallback error id a in (r.0, listed r.1)

  -- The state after the calls, and the callbacks that ran.
  unfoldable pub ack_run : List (AckCall C) → Acks C → Acks C × List C
  ack_run [] a = (a, [])
  ack_run (c ∷ cs) a = let r = ack_step c a in let rest = ack_run cs r.0 in (rest.0, r.1 ++ rest.1)

  -- The callbacks that were handed over.
  unfoldable pub given : List (AckCall C) → List C
  given [] = []
  given (sends callback connected ∷ cs) = callback ∷ given cs
  given (acknowledges id ∷ cs) = given cs
  given (falls_back error id ∷ cs) = given cs

  -- How many callbacks of a list are of a kind.
  unfoldable pub count : (C → Bool) → List C → ℕ
  count p [] = 0
  count p (c ∷ cs) = let rest = count p cs in if p c then suc rest else rest

  -- Pending identifiers have been given out.
  abbrev pub Below : ℕ → List (ℕ × C) → Type 0
  Below n [] = Unit
  Below n ((j, c) ∷ m) = (j < n) × Below n m

  abbrev pub callbacks : List (ℕ × C) → List C
  callbacks m = map (λ e. e.1) m

  pub count-append : (p : C → Bool) (xs ys : List C) → count p (xs ++ ys) ≡ count p xs + count p ys
  unfolding count
  count-append p [] ys = omega arith
  count-append p (x ∷ xs) ys = ground (arith, count-append p xs ys)

  pub count-nil : (p : C → Bool) → count p [] ≡ 0
  unfolding count
  count-nil p = refl

  pub count-cons :
      (p : C → Bool) (c : C) (cs : List C) → count p (c ∷ []) + count p cs ≡ count p (c ∷ cs)
  count-cons p c cs = sym (count-append p (c ∷ []) cs)

  pub find_ack-fresh : (n : ℕ) (m : List (ℕ × C)) → Below n m → find_ack n m ≡ none
  unfolding find_ack
  find_ack-fresh n [] b = refl
  find_ack-fresh n ((j, c) ∷ m) b = ground (arith, find_ack-fresh n m b.1)

  pub Below-mono : (n k : ℕ) (m : List (ℕ × C)) → n ≤ k → Below n m → Below k m
  Below-mono n k [] h b = tt
  Below-mono n k ((j, c) ∷ m) h b = (omega arith, Below-mono n k m h b.1)

  erase-Below : (id n : ℕ) (m : List (ℕ × C)) → Below n m → Below n (erase_ack id m)
  unfolding erase_ack
  erase-Below id n [] b = tt
  erase-Below id n ((j, c) ∷ m) b = ground (arith, erase-Below id n m b.1)

  count-erase :
      (p : C → Bool) (id : ℕ) (c : C) (m : List (ℕ × C))
      → find_ack id m ≡ some c
      → count p (callbacks m) ≡ count p (c ∷ []) + count p (callbacks (erase_ack id m))
  unfolding find_ack erase_ack count
  count-erase p id c [] e = cc
  count-erase p id c ((j, d) ∷ m) e = ground (arith, count-erase p id c m)

  pub resolve-count :
      (p : C → Bool) (id : ℕ) (a : Acks C)
      → count p (callbacks a.pending_acks)
        ≡ count p (listed (resolve_ack id a).1)
          + count p (callbacks (resolve_ack id a).0.pending_acks)
  unfolding resolve_ack
  resolve-count p id a = elim (Option-cases (find_ack id a.pending_acks)) [
    | inl e ↦ rw (e, resolve_ack) (unfold count in omega arith)
    | inr (c, e) ↦ rw (e, resolve_ack) (count-erase p id c a.pending_acks e)
  ]

  pub resolve-Below :
      (id n : ℕ) (a : Acks C) → Below n a.pending_acks → Below n (resolve_ack id a).0.pending_acks
  unfolding resolve_ack
  resolve-Below id n a b = ground (arith, erase-Below id n a.pending_acks b)
