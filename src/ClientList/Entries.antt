-- ===== src/ClientList/Entries.antt =====
-- What creating and removing clients does to the list.
use put_in_pipe.Common.{
  ℕ, ◌≡◌, ◌≢◌, ◌⊎◌, refl, inl, inr, List, [], ◌∷◌, none, some, Bytes, Option-cases,
}
use put_in_pipe.Config.{Config}
use put_in_pipe.Keyed.{lookup}
use put_in_pipe.Keyed.Laws.{SingleKeys, lookup-cons_self, lookup-cons_other, lookup-erase_self}
use put_in_pipe.Client.{Client, new_client}
use put_in_pipe.ClientList.{ClientList, create_client, get_client, remove_client}

-- A client is created exactly if its secret identifier names none: then it is found under that
-- identifier, which it has, with a public identifier made by `sign`, no name, no session and no
-- connection; every other identifier finds what it found before. Otherwise nothing changes. Removing
-- it again leaves nothing under the identifier, where no identifier has two entries.
pub create_client_lem :
    (sign : Bytes → Bytes) (cfg : Config) (now : ℕ) (token : Bytes) (l : ClientList)
    → SingleKeys l.clients
    → ((get_client token l ≢ none) × (create_client sign cfg now token l ≡ (l, [], none)))
      ⊎ ((get_client token l ≡ none)
          × ((c : Client) × (get_client token (create_client sign cfg now token l).0 ≡ some c)
              × (c.id ≡ token)
              × (c.public_id ≡ sign token)
              × (c.name ≡ [])
              × (c.joined_session ≡ [])
              × (c.web_socket ≡ none))
          × ((other : Bytes)
              → token ≢ other
              → get_client other (create_client sign cfg now token l).0 ≡ get_client other l)
          × (get_client token (remove_client token (create_client sign cfg now token l).0).0
              ≡ none))
unfolding create_client get_client remove_client
create_client_lem sign cfg now token l single =
    let made = (new_client sign cfg now token).0 in
    let extended : List (Bytes × Client) = (token, made) ∷ l.clients in
    elim (Option-cases (lookup token l.clients)) [
      | inr (there, e) ↦ rw (e, create_client, get_client) (inl (λ f. cc, refl))
      | inl e ↦
          let self = lookup-cons_self token made l.clients in
          rw (e, create_client, get_client)
            (inr (
              refl,
              (
                made,
                self,
                unfold new_client in refl,
                unfold new_client in refl,
                unfold new_client in refl,
                unfold new_client in refl,
                unfold new_client in refl,
              ),
              λ other differ. lookup-cons_other token other made l.clients differ,
              rw (self, remove_client) (lookup-erase_self token extended (e, single)),
            ))
    ]
