-- ===== src/SessionList/Limit.antt =====
-- What creating and removing sessions does to the list, and how many there can be.
use put_in_pipe.Common.{
  ℕ, ◌+◌, ◌≤◌, ◌≡◌, ◌≢◌, ◌⊎◌, ◌∙◌, refl, inl, inr, Bool, true, false, List, [], ◌∷◌, Option, none,
  some, All, Bytes, Option-cases, if_elim, arith, if◌then◌else◌,
}
use put_in_pipe.Config.{Config}
use put_in_pipe.Keyed.{lookup}
use put_in_pipe.Keyed.Laws.{
  SingleKeys, lookup-cons_self, lookup-cons_other, lookup-erase_self, lookup-erase_other,
  erase-SingleKeys, erase-All, length-erase_key,
}
use put_in_pipe.TimerCallback.{new_timer, start, time_remaining}
use put_in_pipe.Session.{Session, ClientRef, new_session, init_timers}
use put_in_pipe.SessionList.{
  SessionList, SessionWithTimer, create_session, get_session, session_count, possible_to_create_new,
  remove_session, session_timeout, no_sessions,
}

full_lifetime : (d now : ℕ) → time_remaining now (start now (new_timer true d now)).0 ≡ d
unfolding time_remaining start new_timer
full_lifetime d now = ground arith

-- Creating a session for a client: if the client's public identifier already names a session, nothing
-- changes and none is returned. Otherwise the session returned is the one that is found under that
-- identifier, it is a new one whose sender is the client, with its whole lifetime left; the count
-- grows by one, and every other identifier finds what it found before.
pub create_session_lem :
    (cfg : Config) (now : ℕ) (creator : ClientRef) (auto_drop : Bool) (l : SessionList)
    → ((get_session now creator.public_id l ≢ none)
        × (create_session cfg now (some creator) auto_drop l ≡ (l, [], none)))
      ⊎ ((get_session now creator.public_id l ≡ none)
          × ((create_session cfg now (some creator) auto_drop l).2
              ≡ some (
                init_timers cfg now (new_session creator creator.public_id auto_drop),
                cfg.transfer_session_max_lifetime,
              ))
          × (get_session now creator.public_id (create_session cfg now (some creator) auto_drop l).0
              ≡ (create_session cfg now (some creator) auto_drop l).2)
          × (session_count (create_session cfg now (some creator) auto_drop l).0
              ≡ session_count l + 1)
          × ((id : Bytes)
              → creator.public_id ≢ id
              → get_session now id (create_session cfg now (some creator) auto_drop l).0
                ≡ get_session now id l))
unfolding create_session get_session
create_session_lem cfg now creator auto_drop l =
    let id = creator.public_id in
    let session = init_timers cfg now (new_session creator id auto_drop) in
    let timer = start now (new_timer true cfg.transfer_session_max_lifetime now) in
    let entry : SessionWithTimer = record { session = session; timer = timer.0 } in
    elim (Option-cases (lookup id l.sessions)) [
      | inl e ↦
          rw (e, create_session, get_session)
            (inr (
              refl,
              rw (full_lifetime cfg.transfer_session_max_lifetime now) refl,
              rw (lookup-cons_self id entry l.sessions, get_session) refl,
              omega arith,
              λ j other. rw (lookup-cons_other id j entry l.sessions other, get_session) refl,
            ))
      | inr (there, e) ↦ rw (e, create_session, get_session) (inl (λ f. cc, refl))
    ]

-- Removing a session whose identifier names one takes it out: the identifier finds none afterwards, the
-- count shrinks by one, the session is the one that was found, and every other identifier finds what
-- it found before.
pub remove_session_lem :
    (now : ℕ) (id : Bytes) (l : SessionList) (s : Session) (left : ℕ)
    → SingleKeys l.sessions
    → get_session now id l ≡ some (s, left)
    → ((remove_session id l).1 ≡ some s)
      × (get_session now id (remove_session id l).0 ≡ none)
      × (session_count (remove_session id l).0 + 1 ≡ session_count l)
      × ((j : Bytes) → id ≢ j → get_session now j (remove_session id l).0 ≡ get_session now j l)
unfolding remove_session get_session
remove_session_lem now id l s left single found = elim (Option-cases (lookup id l.sessions)) [
  | inl e ↦ absurd (ground arith)
  | inr (there, e) ↦
      rw (e, remove_session)
        (
          ground arith,
          rw (lookup-erase_self id l.sessions single, get_session) refl,
          length-erase_key id l.sessions there e,
          λ j other. rw (lookup-erase_other id j l.sessions other, get_session) refl,
        )
]

-- What happens to the list: a request to create a session, which the web API grants only while
-- `possibleToCreateNew` answers true; removals; lifetimes that run out.
pub data ListCall : Type 0 where
  requests : ℕ → Option ClientRef → Bool → ListCall
  removes : Bytes → ListCall
  expires : Bytes → ListCall

unfoldable pub list_step : Config → ListCall → SessionList → SessionList
list_step cfg (requests now creator auto_drop) l =
    if possible_to_create_new cfg l then (create_session cfg now creator auto_drop l).0 else l
list_step cfg (removes id) l = (remove_session id l).0
list_step cfg (expires id) l = (session_timeout id l).0

unfoldable pub list_run : Config → List ListCall → SessionList → SessionList
list_run cfg [] l = l
list_run cfg (c ∷ cs) l = list_run cfg cs (list_step cfg c l)

-- No identifier names two sessions, each session has the identifier that names it, and there are no
-- more sessions than configured.
pub record Sound (cfg : Config) (l : SessionList) : Type 0 where
  pub single : SingleKeys l.sessions
  pub named : All (λ e. e.1.session.id ≡ e.0) l.sessions
  pub few : session_count l ≤ cfg.transfer_session_count_limit

pub remove-Sound :
    (cfg : Config) (id : Bytes) (l : SessionList) → Sound cfg l → Sound cfg (remove_session id l).0
unfolding remove_session
remove-Sound cfg id l h = elim (Option-cases (lookup id l.sessions)) [
  | inl e ↦ rw (e, remove_session) h
  | inr (there, e) ↦
      rw (e, remove_session)
        (record {
          single = erase-SingleKeys id l.sessions h.single;
          named = erase-All (λ e. e.1.session.id ≡ e.0) id l.sessions h.named;
          few = omega (arith, length-erase_key id l.sessions there e, h.few);
        })
]

pub create-Sound :
    (cfg : Config) (now : ℕ) (creator : Option ClientRef) (auto_drop : Bool) (l : SessionList)
    → possible_to_create_new cfg l ≡ true
    → Sound cfg l
    → Sound cfg (create_session cfg now creator auto_drop l).0
unfolding create_session init_timers new_session
create-Sound cfg now none auto_drop l room h = h
create-Sound cfg now (some creator) auto_drop l room h =
    elim (Option-cases (lookup creator.public_id l.sessions)) [
      | inl e ↦
          rw (e, create_session)
            (record { single = (e, h.single); named = (refl, h.named); few = ground arith })
      | inr (there, e) ↦ rw (e, create_session) h
    ]

list_step-Sound :
    (cfg : Config) (c : ListCall) (l : SessionList) → Sound cfg l → Sound cfg (list_step cfg c l)
unfolding list_step session_timeout
list_step-Sound cfg (requests now creator auto_drop) l h =
    if_elim (Sound cfg) (possible_to_create_new cfg l) _ _
      (λ room. create-Sound cfg now creator auto_drop l room h) (λ _. h)
list_step-Sound cfg (removes id) l h = remove-Sound cfg id l h
list_step-Sound cfg (expires id) l h = remove-Sound cfg id l h

list_run-keeps :
    (cfg : Config) (cs : List ListCall) (l : SessionList)
    → Sound cfg l
    → Sound cfg (list_run cfg cs l)
unfolding list_run
list_run-keeps cfg [] l h = h
list_run-keeps cfg (c ∷ cs) l h =
    list_run-keeps cfg cs (list_step cfg c l) (list_step-Sound cfg c l h)

-- From an empty list, after any requests (one at a time), removals and expired lifetimes: no identifier
-- names two sessions, each session has the identifier that names it, and there are at most as many
-- sessions as configured.
pub list_run-Sound : (cfg : Config) (cs : List ListCall) → Sound cfg (list_run cfg cs no_sessions)
list_run-Sound cfg cs =
    list_run-keeps cfg cs no_sessions (record { single = tt; named = tt; few = omega arith })

-- Two requests that both ask before either creates its session: with one place left, both are told
-- that there is room, and then there is one session more than configured.
pub requests_race :
    (cfg : Config) (now : ℕ) (a b : ClientRef) (l : SessionList)
    → session_count l + 1 ≡ cfg.transfer_session_count_limit
    → a.public_id ≢ b.public_id
    → get_session now a.public_id l ≡ none
    → get_session now b.public_id l ≡ none
    → (possible_to_create_new cfg l ≡ true)
      × (session_count
            (create_session cfg now (some b) false (create_session cfg now (some a) false l).0).0
          ≡ cfg.transfer_session_count_limit + 1)
requests_race cfg now a b l one_left differ fresh_a fresh_b =
    let l' = (create_session cfg now (some a) false l).0 in
    elim (create_session_lem cfg now a false l) [
      | inl (there, _) ↦ absurd (there fresh_a)
      | inr (_, _, _, more, same) ↦ elim (create_session_lem cfg now b false l') [
        | inl (there, _) ↦ absurd (there (same b.public_id differ ∙ fresh_b))
        | inr (_, _, _, most, _) ↦ (ground (arith, one_left), omega (arith, more, most, one_left))
      ]
    ]
