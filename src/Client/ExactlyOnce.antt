-- ===== src/Client/ExactlyOnce.antt =====
-- Every callback given to `sendTextWithAck` runs exactly once.
use put_in_pipe.Common.{
  ℕ, suc, ◌+◌, ◌<◌, ◌≡◌, refl, u64, u64_mod, Bool, true, false, List, [], ◌∷◌, ◌++◌, length, arith,
  sym,
}
use put_in_pipe.Client.PendingAcks.{Acks, no_acks, register, resolve_ack, on_fallback, drain}
use put_in_pipe.Client.AckRuns.{
  AckCall, sends, acknowledges, falls_back, ack_step, ack_run, given, count, Below, callbacks,
  count-append, count-nil, count-cons, find_ack-fresh, Below-mono, resolve-count, resolve-Below,
}

module _ {ℓ} {C : Type ℓ} where
  -- Identifiers are given out in order and do not run out.
  pub record Issued (n : ℕ) (a : Acks C) : Type ℓ where
    pub below : Below a.next_ack_id a.pending_acks
    pub room : a.next_ack_id + n < u64_mod

  register-fresh :
      (n : ℕ) (callback : C) (a : Acks C)
      → Issued (suc n) a
      → register callback a ≡ (
        record {
          next_ack_id = a.next_ack_id + 1;
          pending_acks = (a.next_ack_id, callback) ∷ a.pending_acks;
        },
        a.next_ack_id,
      )
  unfolding register
  register-fresh n callback a i =
      let next : u64 (a.next_ack_id + 1) ≡ a.next_ack_id + 1 = omega (arith, i.room) in
      rw (find_ack-fresh a.next_ack_id a.pending_acks i.below, next)

  resolve-next : (id : ℕ) (a : Acks C) → (resolve_ack id a).0.next_ack_id ≡ a.next_ack_id
  unfolding resolve_ack
  resolve-next id a = ground arith

  resolve-Issued : (n id : ℕ) (a : Acks C) → Issued n a → Issued n (resolve_ack id a).0
  resolve-Issued n id a i =
      let e = resolve-next id a in
      record {
        below = rw e (resolve-Below id a.next_ack_id a i.below);
        room = omega (arith, i.room);
      }

  weaken-Issued : (n : ℕ) (a : Acks C) → Issued (suc n) a → Issued n a
  weaken-Issued n a i = record { below = i.below; room = omega (arith, i.room) }

  registered : C → Acks C → Acks C
  registered callback a = record {
    next_ack_id = a.next_ack_id + 1;
    pending_acks = (a.next_ack_id, callback) ∷ a.pending_acks;
  }

  registered-Issued :
      (n : ℕ) (callback : C) (a : Acks C) → Issued (suc n) a → Issued n (registered callback a)
  unfolding registered
  registered-Issued n callback a i = record {
    below = (
      omega arith,
      Below-mono a.next_ack_id (a.next_ack_id + 1) a.pending_acks (omega arith) i.below,
    );
    room = omega (arith, i.room);
  }

  step-Issued : (n : ℕ) (c : AckCall C) (a : Acks C) → Issued (suc n) a → Issued n (ack_step c a).0
  unfolding ack_step registered on_fallback
  step-Issued n (sends callback true) a i =
      rw (register-fresh n callback a i) (registered-Issued n callback a i)
  step-Issued n (sends callback false) a i =
      rw (register-fresh n callback a i)
        (resolve-Issued n a.next_ack_id (registered callback a) (registered-Issued n callback a i))
  step-Issued n (acknowledges id) a i = resolve-Issued n id a (weaken-Issued n a i)
  step-Issued n (falls_back true id) a i = weaken-Issued n a i
  step-Issued n (falls_back false id) a i = resolve-Issued n id a (weaken-Issued n a i)

  handed : AckCall C → List C
  handed (sends callback connected) = callback ∷ []
  handed (acknowledges id) = []
  handed (falls_back error id) = []

  step-count :
      (n : ℕ) (p : C → Bool) (c : AckCall C) (a : Acks C)
      → Issued (suc n) a
      → count p (handed c) + count p (callbacks a.pending_acks)
        ≡ count p (ack_step c a).1 + count p (callbacks (ack_step c a).0.pending_acks)
  unfolding ack_step registered on_fallback handed
  step-count n p (sends callback true) a i =
      rw (register-fresh n callback a i)
        (omega (arith, count-nil p, count-cons p callback (callbacks a.pending_acks)))
  step-count n p (sends callback false) a i = rw (register-fresh n callback a i) (
      omega (
        arith,
        count-cons p callback (callbacks a.pending_acks),
        resolve-count p a.next_ack_id (registered callback a),
      ))
  step-count n p (acknowledges id) a i = omega (arith, count-nil p, resolve-count p id a)
  step-count n p (falls_back true id) a i = refl
  step-count n p (falls_back false id) a i = omega (arith, count-nil p, resolve-count p id a)

  given-cons :
      (p : C → Bool) (c : AckCall C) (cs : List (AckCall C))
      → count p (given (c ∷ cs)) ≡ count p (handed c) + count p (given cs)
  unfolding given handed
  given-cons p (sends callback connected) cs = sym (count-cons p callback (given cs))
  given-cons p (acknowledges id) cs = omega (arith, count-nil p)
  given-cons p (falls_back error id) cs = omega (arith, count-nil p)

  run-count :
      (p : C → Bool) (cs : List (AckCall C)) (a : Acks C)
      → Issued (length cs) a
      → count p (given cs) + count p (callbacks a.pending_acks)
        ≡ count p (ack_run cs a).1 + count p (callbacks (ack_run cs a).0.pending_acks)
  unfolding ack_run
  run-count p [] a i = unfold given in refl
  run-count p (c ∷ cs) a i = omega (
    arith,
    given-cons p c cs,
    step-count (length cs) p c a i,
    run-count p cs (ack_step c a).0 (step-Issued (length cs) c a i),
    count-append p (ack_step c a).1 (ack_run cs (ack_step c a).0).1,
  )

  -- Whatever is sent, acknowledged (known identifiers or not, once or again) and timed out, in any
  -- order, with fewer than 2^64 - 1 calls in all, and the client destroyed at the end: the callbacks
  -- that ran, together with those that the destructor runs, are exactly the callbacks handed over,
  -- each as often as it was handed over. (Every set `p` of callbacks counts the same in both.)
  pub callbacks_exactly_once :
      (p : C → Bool) (cs : List (AckCall C))
      → length cs + 1 < u64_mod
      → count p ((ack_run cs no_acks).1 ++ (drain (ack_run cs no_acks).0).1) ≡ count p (given cs)
  unfolding drain
  callbacks_exactly_once p cs room =
      let start : Issued (length cs) no_acks = record { below = tt; room = omega arith } in
      omega (
        arith,
        run-count p cs no_acks start,
        count-nil p,
        count-append p (ack_run cs no_acks).1 (callbacks (ack_run cs no_acks).0.pending_acks),
      )
