-- ===== src/Session/Refinement.antt =====
-- Every call of a session acts on the buffer by calls of `Buffer` alone, so what holds of a buffer
-- after any calls holds of the buffer of a session.
use put_in_pipe.Common.{
  ℕ, ◌*◌, ◌≤◌, ◌≡◌, refl, Bool, true, ◌&&◌, List, [], ◌∷◌, ◌++◌, Option, none, some, length, Bytes,
  arith, Bool-cases, inl, inr, ◌∙◌, sym, ap, ap₂, length-append, ◌⊎◌, any,
}
use put_in_pipe.Config.{Config}
use put_in_pipe.Buffer.{Buffer, set_end_of_file}
use put_in_pipe.Buffer.History.{
  Call, adds, gets, confirms, ends, joins, leaves, unfreezes, step, run, uploads, uploaded,
}
use put_in_pipe.Session.{Session, ClientRef, manual_terminate, set_timedout}
use put_in_pipe.Session.Info.{set_file_info}
use put_in_pipe.Session.Freeze.{drop_initial_chunks_freeze, session_set_end_of_file}
use put_in_pipe.Session.Chunks.{
  session_add_chunk, session_get_chunk, auto_drop_freeze, confirm_chunk,
  session_set_chunk_as_received,
}
use put_in_pipe.Session.Receivers.{
  add_receiver, remove_receiver, end_without_receivers, update_destroyed, text_eq,
}
use put_in_pipe.Session.History.{
  SessionCall, adds_receiver, removes_receiver, sets_file_info, adds_chunk, gets_chunk,
  confirms_chunk, ends_file, drops_freeze, terminates, times_out, client_destroyed, session_step,
  session_run, session_uploads, session_uploaded,
}

-- `b'` comes from `b` by at most three calls of `Buffer`, which add to the uploads what `grow` says.
abbrev pub ByCalls : Config → Buffer → Buffer → (List Bytes → List Bytes) → Type 0
ByCalls cfg b b' grow =
    (cs : List Call) × (length cs ≤ 3)
    × (b' ≡ run cfg cs b)
    × ((ups : List Bytes) → uploaded cfg cs b ups ≡ grow ups)

abbrev same_uploads : List Bytes → List Bytes
same_uploads ups = ups

module _ (cfg : Config) (alive : Bytes → Bool) (s : Session) where
  add_receiver-ByCalls :
      (client : Option ClientRef)
      → ByCalls cfg s.buffer (add_receiver alive cfg client s).0.buffer same_uploads
  unfolding add_receiver run step uploaded uploads
  add_receiver-ByCalls none = ([], omega arith, refl, λ ups. refl)
  add_receiver-ByCalls (some client) =
      elim (Bool-cases (any (λ c. alive c.id && text_eq c.id client.id) s.data_receivers)) [
        | inl found ↦ ([], omega arith, ground arith, λ ups. refl)
        | inr fresh ↦ (joins client.public_id ∷ [], omega arith, ground arith, λ ups. refl)
      ]

  remove_receiver-ByCalls :
      (public_id : Bytes)
      → ByCalls cfg s.buffer (remove_receiver alive public_id s).0.buffer same_uploads
  unfolding remove_receiver run step end_without_receivers uploaded uploads
  remove_receiver-ByCalls public_id =
      (leaves public_id ∷ [], omega arith, ground arith, λ ups. refl)

  drop-ByCalls : ByCalls cfg s.buffer (drop_initial_chunks_freeze cfg s).0.buffer same_uploads
  unfolding drop_initial_chunks_freeze run step uploaded uploads
  drop-ByCalls = (unfreezes ∷ [], omega arith, ground arith, λ ups. refl)

  auto_drop-buffer :
      ((auto_drop_freeze cfg s).0.buffer ≡ s.buffer)
      ⊎ ((auto_drop_freeze cfg s).0.buffer ≡ step cfg unfreezes s.buffer)
  unfolding auto_drop_freeze drop_initial_chunks_freeze step
  auto_drop-buffer = ground arith

  destroyed-buffer :
      (public_id : Bytes)
      → ((update_destroyed alive public_id s).0.buffer ≡ s.buffer)
        ⊎ ((update_destroyed alive public_id s).0.buffer
            ≡ (remove_receiver alive public_id s).0.buffer)
  unfolding update_destroyed
  destroyed-buffer public_id = ground arith

  destroyed-ByCalls :
      (public_id : Bytes)
      → ByCalls cfg s.buffer (update_destroyed alive public_id s).0.buffer same_uploads
  destroyed-ByCalls public_id = elim (destroyed-buffer public_id) [
    | inl e ↦ ([], omega arith, unfold run in e, λ ups. unfold uploaded in refl)
    | inr e ↦
        let (cs, few, by, none_added) = remove_receiver-ByCalls public_id in
        (cs, few, e ∙ by, none_added)
  ]

confirm_chunk-buffer :
    (cfg : Config) (index : ℕ) (client : ClientRef) (s : Session)
    → (confirm_chunk cfg index client s).0.buffer
      ≡ run cfg (gets index ∷ confirms index ∷ []) s.buffer
unfolding confirm_chunk run step
confirm_chunk-buffer cfg index client s = ground arith

confirm-ByCalls :
    (cfg : Config) (index : ℕ) (client : Option ClientRef) (s : Session)
    → ByCalls cfg s.buffer (session_set_chunk_as_received cfg index client s).0.buffer same_uploads
unfolding session_set_chunk_as_received run uploaded uploads
confirm-ByCalls cfg index none s = ([], omega arith, refl, λ ups. refl)
confirm-ByCalls cfg index (some client) s =
    let confirmed = confirm_chunk-buffer cfg index client (auto_drop_freeze cfg s).0 in
    let calls : List Call = gets index ∷ confirms index ∷ [] in
    elim (auto_drop-buffer cfg (λ _. true) s) [
      | inl e ↦ (calls, omega arith, confirmed ∙ ap (run cfg calls) e, λ ups. refl)
      | inr e ↦ (unfreezes ∷ calls, omega arith, confirmed ∙ ap (run cfg calls) e, λ ups. refl)
    ]

add_chunk-ByCalls :
    (cfg : Config) (d : Bytes) (s : Session)
    → ByCalls cfg s.buffer
        (session_add_chunk cfg d s).0.buffer
        (session_uploads cfg (adds_chunk d) s)
unfolding session_add_chunk run step uploaded uploads session_uploads
add_chunk-ByCalls cfg d s = (adds d ∷ [], omega arith, ground arith, λ ups. ground arith)

-- Each call of a session acts on its buffer by at most three calls of `Buffer`, and these take in the
-- chunk that the session takes in.
pub session_step-ByCalls :
    (cfg : Config) (alive : Bytes → Bool) (c : SessionCall) (s : Session)
    → ByCalls cfg s.buffer (session_step cfg alive c s).0.buffer (session_uploads cfg c s)
unfolding session_step session_uploads
session_step-ByCalls cfg alive (adds_receiver client) s = add_receiver-ByCalls cfg alive s client
session_step-ByCalls cfg alive (removes_receiver public_id) s =
    remove_receiver-ByCalls cfg alive s public_id
session_step-ByCalls cfg alive (sets_file_info info) s =
    unfold set_file_info run uploaded in ([], omega arith, ground arith, λ ups. refl)
session_step-ByCalls cfg alive (adds_chunk d) s = add_chunk-ByCalls cfg d s
session_step-ByCalls cfg alive (gets_chunk index none) s =
    unfold session_get_chunk run uploaded in ([], omega arith, refl, λ ups. refl)
session_step-ByCalls cfg alive (gets_chunk index (some client)) s =
    unfold session_get_chunk run step uploaded uploads in
    (gets index ∷ [], omega arith, ground arith, λ ups. refl)
session_step-ByCalls cfg alive (confirms_chunk index client) s = confirm-ByCalls cfg index client s
session_step-ByCalls cfg alive ends_file s =
    unfold session_set_end_of_file set_end_of_file run step uploaded uploads in
    (ends ∷ [], omega arith, ground arith, λ ups. refl)
session_step-ByCalls cfg alive drops_freeze s = drop-ByCalls cfg alive s
session_step-ByCalls cfg alive terminates s =
    unfold manual_terminate run uploaded in ([], omega arith, refl, λ ups. refl)
session_step-ByCalls cfg alive times_out s =
    unfold set_timedout run uploaded in ([], omega arith, refl, λ ups. refl)
session_step-ByCalls cfg alive (client_destroyed public_id) s =
    destroyed-ByCalls cfg alive s public_id

run-append :
    (cfg : Config) (xs ys : List Call) (b : Buffer)
    → run cfg (xs ++ ys) b ≡ run cfg ys (run cfg xs b)
unfolding run
run-append cfg [] ys b = refl
run-append cfg (x ∷ xs) ys b = run-append cfg xs ys (step cfg x b)

uploaded-append :
    (cfg : Config) (xs ys : List Call) (b : Buffer) (ups : List Bytes)
    → uploaded cfg (xs ++ ys) b ups ≡ uploaded cfg ys (run cfg xs b) (uploaded cfg xs b ups)
unfolding uploaded run
uploaded-append cfg [] ys b ups = refl
uploaded-append cfg (x ∷ xs) ys b ups =
    uploaded-append cfg xs ys (step cfg x b) (uploads cfg x b ups)

-- Refinement: whatever is called on a session, and whichever clients exist meanwhile, its buffer is
-- one that calls of `Buffer` alone lead to, at most three for each call of the session, and the
-- uploads that the session accepted are those that these calls accepted.
pub session_run-refines :
    (cfg : Config) (cs : List ((Bytes → Bool) × SessionCall)) (s : Session) (ups : List Bytes)
    → (bs : List Call) × (length bs ≤ 3 * length cs)
      × ((session_run cfg cs s).buffer ≡ run cfg bs s.buffer)
      × (session_uploaded cfg cs s ups ≡ uploaded cfg bs s.buffer ups)
unfolding session_run session_uploaded
session_run-refines cfg [] s ups = unfold run uploaded in ([], omega arith, refl, refl)
session_run-refines cfg ((alive, c) ∷ cs) s ups =
    let (xs, few, by, added) = session_step-ByCalls cfg alive c s in
    let (ys, more, then_by, then_added) =
      session_run-refines cfg cs (session_step cfg alive c s).0 (session_uploads cfg c s ups) in
    (
      xs ++ ys,
      omega (arith, length-append {0} xs ys),
      then_by ∙ ap (run cfg ys) by ∙ sym (run-append cfg xs ys s.buffer),
      then_added
          ∙ ap₂ (uploaded cfg ys) by (sym (added ups))
          ∙ sym (uploaded-append cfg xs ys s.buffer ups),
    )
