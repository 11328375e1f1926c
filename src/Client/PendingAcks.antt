-- ===== src/Client/PendingAcks.antt =====
-- The pending acknowledgements of client.h and client.cpp: `m_nextAckId`, `m_pendingAcks`,
-- `processAck` and `resolveAck`. A callback is a value; running it is a result. The fallback timers
-- are outside: one that fires calls `on_fallback` with its error flag.
use put_in_pipe.Common.{
  ℕ, ◌+◌, ◌==◌, u64, Bool, List, [], ◌∷◌, map, Option, none, some, if◌then◌else◌,
}

pub record Acks {ℓ} (C : Type ℓ) : Type ℓ where
  pub next_ack_id : ℕ
  pub pending_acks : List (ℕ × C)

module _ {ℓ} {C : Type ℓ} where
  abbrev pub no_acks : Acks C
  no_acks = record { next_ack_id = 1; pending_acks = [] }

  -- `m_pendingAcks.find`.
  unfoldable pub find_ack : ℕ → List (ℕ × C) → Option C
  find_ack id [] = none
  find_ack id ((j, c) ∷ m) = if j == id then some c else find_ack id m

  unfoldable pub erase_ack : ℕ → List (ℕ × C) → List (ℕ × C)
  erase_ack id [] = []
  erase_ack id ((j, c) ∷ m) = if j == id then m else (j, c) ∷ erase_ack id m

  -- `fetch_add` and `emplace`: the new state, and the identifier. An entry that is there stays.
  unfoldable pub register : C → Acks C → Acks C × ℕ
  register callback a = (
    record {
      next_ack_id = u64 (a.next_ack_id + 1);
      pending_acks = elim (find_ack a.next_ack_id a.pending_acks) [
        | none ↦ (a.next_ack_id, callback) ∷ a.pending_acks
        | some c ↦ a.pending_acks
      ];
    },
    a.next_ack_id,
  )

  -- `resolveAck`: the callback to run, if the identifier is pending.
  unfoldable pub resolve_ack : ℕ → Acks C → Acks C × Option C
  resolve_ack id a = elim (find_ack id a.pending_acks) [
    | none ↦ (a, none)
    | some c ↦ (record a { pending_acks = erase_ack id a.pending_acks }, some c)
  ]

  abbrev pub process_ack : ℕ → Acks C → Acks C × Option C
  process_ack ack_id a = resolve_ack ack_id a

  -- The handler of a fallback timer whose client is still in the list.
  unfoldable pub on_fallback : Bool → ℕ → Acks C → Acks C × Option C
  on_fallback error id a = if error then (a, none) else resolve_ack id a

  -- The part of the destructor that runs what is pending.
  unfoldable pub drain : Acks C → Acks C × List C
  drain a = (record a { pending_acks = [] }, map (λ e. e.1) a.pending_acks)
