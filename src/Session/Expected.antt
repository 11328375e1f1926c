-- ===== src/Session/Expected.antt =====
-- The receivers of a session and the expected consumers of its buffer: joining and leaving.
use put_in_pipe.Common.{
  ℕ, ◌≡◌, ◌≢◌, Bool, true, ◌&&◌, List, [], ◌∷◌, Option, none, some, any, All, All-append, Bytes,
  bytes_discrete, arith, Bool-cases, inl, inr, sym, subst, ◌∙◌,
}
use put_in_pipe.Config.{Config}
use put_in_pipe.AtomicSet
use put_in_pipe.AtomicSet.{contains, erase}
use put_in_pipe.AtomicSet.Laws.{contains-erase_other, erase_absent}
use put_in_pipe.Buffer.{Buffer, remove_one_from_expected_consumers}
use put_in_pipe.Buffer.Sanitize.{sanitize_exact}
use put_in_pipe.Buffer.Settled.{join_cases}
use put_in_pipe.Session.{Session, ClientRef}
use put_in_pipe.Session.Receivers.{
  add_receiver, remove_receiver, erase_receiver, end_without_receivers, text_eq,
}

-- The buffer waits for the receiver.
abbrev pub IsExpected : Buffer → ClientRef → Type 0
IsExpected b r = contains bytes_discrete r.public_id b.expected_consumers.elements ≡ true

-- The buffer waits for every receiver of the session.
abbrev pub AllExpected : Session → Type 0
AllExpected s = All (IsExpected s.buffer) s.data_receivers

contains-cons :
    (p q : Bytes) (xs : List Bytes)
    → contains bytes_discrete q xs ≡ true
    → contains bytes_discrete q (p ∷ xs) ≡ true
unfolding contains
contains-cons p q xs h = ground arith

contains-cons_self : (p : Bytes) (xs : List Bytes) → contains bytes_discrete p (p ∷ xs) ≡ true
unfolding contains
contains-cons_self p xs = ground arith

All-cons_expected :
    (p : Bytes) (xs : List Bytes) (rs : List ClientRef)
    → All (λ r. contains bytes_discrete r.public_id xs ≡ true) rs
    → All (λ r. contains bytes_discrete r.public_id (p ∷ xs) ≡ true) rs
All-cons_expected p xs [] a = tt
All-cons_expected p xs (r ∷ rs) a =
    (contains-cons p r.public_id xs a.0, All-cons_expected p xs rs a.1)

pub add_receiver-AllExpected :
    (cfg : Config) (alive : Bytes → Bool) (client : Option ClientRef) (s : Session)
    → AllExpected s
    → AllExpected (add_receiver alive cfg client s).0
unfolding add_receiver
add_receiver-AllExpected cfg alive none s a = a
add_receiver-AllExpected cfg alive (some client) s a =
    elim (Bool-cases (any (λ c. alive c.id && text_eq c.id client.id) s.data_receivers)) [
      | inl found ↦ rw (found, add_receiver) a
      | inr fresh ↦ elim (join_cases cfg client.public_id s.buffer) [
        | inl e ↦ rw (fresh, add_receiver, e) a
        | inr (_, _, e) ↦
            rw (fresh, add_receiver, e)
              (All-append _ s.data_receivers (client ∷ [])
                (All-cons_expected client.public_id s.buffer.expected_consumers.elements
                  s.data_receivers a)
                (contains-cons_self client.public_id s.buffer.expected_consumers.elements, tt))
      ]
    ]

-- The receivers that stay have another public identifier, and their clients exist.
erase_receiver-All :
    (alive : Bytes → Bool) (P : ClientRef → Type 0) (p : Bytes) (rs : List ClientRef)
    (found : Option ClientRef)
    → All P rs
    → All (λ r. P r × (p ≢ r.public_id) × (alive r.id ≡ true)) (erase_receiver alive p rs found).0
unfolding erase_receiver
erase_receiver-All alive P p [] found a = tt
erase_receiver-All alive P p (r ∷ rs) found a =
    ground (
      arith,
      erase_receiver-All alive P p rs found a.1,
      erase_receiver-All alive P p rs (some r) a.1,
    )

leave-consumers :
    (p : Bytes) (b : Buffer) (removed : List ℕ)
    → (remove_one_from_expected_consumers p b removed).0.expected_consumers.elements
      ≡ erase bytes_discrete p b.expected_consumers.elements
unfolding remove_one_from_expected_consumers AtomicSet.remove
leave-consumers p b removed = ground (
  arith,
  erase_absent bytes_discrete p b.expected_consumers.elements,
  sanitize_exact
      (record b {
        expected_consumers = record {
          elements = erase bytes_discrete p b.expected_consumers.elements;
        };
      })
      removed,
)

All-stay :
    (alive : Bytes → Bool) (p : Bytes) (xs : List Bytes) (rs : List ClientRef)
    → All
        (λ r.
          (contains bytes_discrete r.public_id xs ≡ true) × (p ≢ r.public_id) × (alive r.id ≡ true))
        rs
    → All (λ r. contains bytes_discrete r.public_id (erase bytes_discrete p xs) ≡ true) rs
All-stay alive p xs [] a = tt
All-stay alive p xs (r ∷ rs) a =
    (contains-erase_other bytes_discrete p r.public_id xs a.0.1 ∙ a.0.0, All-stay alive p xs rs a.1)

remove_receiver-fields :
    (alive : Bytes → Bool) (p : Bytes) (s : Session)
    → ((remove_receiver alive p s).0.data_receivers
        ≡ (erase_receiver alive p s.data_receivers none).0)
      × ((remove_receiver alive p s).0.buffer.expected_consumers.elements
          ≡ erase bytes_discrete p s.buffer.expected_consumers.elements)
unfolding remove_receiver end_without_receivers
remove_receiver-fields alive p s = ground (arith, leave-consumers p s.buffer [])

AllExpected-fields :
    (s : Session) (rs : List ClientRef) (xs : List Bytes)
    → s.data_receivers ≡ rs
    → s.buffer.expected_consumers.elements ≡ xs
    → All (λ r. contains bytes_discrete r.public_id xs ≡ true) rs
    → AllExpected s
AllExpected-fields s rs xs e f a =
    subst
      (λ (ys : List Bytes).
        All (λ r. contains bytes_discrete r.public_id ys ≡ true) s.data_receivers)
      (sym f)
      (subst (λ (qs : List ClientRef). All (λ r. contains bytes_discrete r.public_id xs ≡ true) qs)
        (sym e) a)

pub remove_receiver-AllExpected :
    (alive : Bytes → Bool) (p : Bytes) (s : Session)
    → AllExpected s
    → AllExpected (remove_receiver alive p s).0
remove_receiver-AllExpected alive p s a =
    let xs = s.buffer.expected_consumers.elements in
    let (receivers, consumers) = remove_receiver-fields alive p s in
    AllExpected-fields (remove_receiver alive p s).0 _ _ receivers consumers (
      All-stay alive p xs (erase_receiver alive p s.data_receivers none).0 (
        erase_receiver-All alive (λ r. contains bytes_discrete r.public_id xs ≡ true) p
          s.data_receivers none a))
