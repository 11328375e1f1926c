-- ===== src/Publisher.antt =====
-- observerpattern.h: `Publisher`, a list of weak pointers to subscribers. A subscriber is named by a
-- value; `alive` tells which of them still exist, so which weak pointers can be locked. A call of
-- `update` is a delivery, in the order in which the calls are made.
pub mod Laws
use put_in_pipe.Common.{
  ℕ, Bool, true, false, ◌&&◌, List, [], ◌∷◌, ◌++◌, Option, none, some, length, keep, any, map,
  if◌then◌else◌,
}

pub record Publisher {ℓ} (S : Type ℓ) : Type ℓ where
  pub subscribers : List S

module _ {ℓ} {S : Type ℓ} (dec : Discrete S) (alive : S → Bool) where
  -- Whether the weak pointer locks to the subscriber.
  unfoldable pub refers : S → S → Bool
  refers observer wp = elim (dec wp observer) [ yes _ ↦ alive wp | no _ ↦ false ]

  unfoldable pub has_subscriber : S → Publisher S → Bool
  has_subscriber observer p = any (refers observer) p.subscribers

  -- `none` is the null pointer.
  unfoldable pub add_subscriber : Option S → Publisher S → Publisher S
  add_subscriber none p = p
  add_subscriber (some subscriber) p =
      if has_subscriber subscriber p
      then p
      else record { subscribers = p.subscribers ++ subscriber ∷ [] }

  -- The first entry that `find_if` stops at is erased.
  unfoldable pub erase_first : S → List S → List S
  erase_first subscriber [] = []
  erase_first subscriber (wp ∷ rest) =
      if refers subscriber wp then rest else wp ∷ erase_first subscriber rest

  unfoldable pub remove_subscriber : S → Publisher S → Publisher S
  remove_subscriber subscriber p = record { subscribers = erase_first subscriber p.subscribers }

  -- Expired entries are dropped; each of the others gets the event.
  unfoldable pub notify_subscribers {κ} :
      {E : Type κ} → E → Publisher S → Publisher S × List (S × E)
  notify_subscribers event p = (
    record { subscribers = keep alive p.subscribers },
    map (λ s. (s, event)) (keep alive p.subscribers),
  )

  unfoldable pub count_subscribers : Publisher S → ℕ
  count_subscribers p = length (keep alive p.subscribers)
