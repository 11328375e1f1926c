-- ===== src/Session/Told.antt =====
-- What a list of calls on other objects tells the sender, and whether it ends the session.
use put_in_pipe.Common.{ℕ, ◌≡◌, refl, Bool, true, false, ◌||◌, List, [], ◌∷◌, ◌++◌}
use put_in_pipe.Session.{
  Effect, notifies, notifies_sender, removes_session, kicks, increments_received, subscribes,
  watches, subscribes_session,
}
use put_in_pipe.Session.Freeze.{tell_removed}

-- What the sender last heard, if it knew `k` before.
abbrev pub known : Bool → List Effect → Bool
known k [] = k
known k (notifies_sender allowed ∷ es) = known allowed es
known k (notifies e ∷ es) = known k es
known k (removes_session ∷ es) = known k es
known k (kicks c ∷ es) = known k es
known k (increments_received c n ∷ es) = known k es
known k (subscribes c d ∷ es) = known k es
known k (watches c ∷ es) = known k es
known k (subscribes_session c ∷ es) = known k es

abbrev pub ends : List Effect → Bool
ends [] = false
ends (removes_session ∷ es) = true
ends (notifies_sender allowed ∷ es) = ends es
ends (notifies e ∷ es) = ends es
ends (kicks c ∷ es) = ends es
ends (increments_received c n ∷ es) = ends es
ends (subscribes c d ∷ es) = ends es
ends (watches c ∷ es) = ends es
ends (subscribes_session c ∷ es) = ends es

pub known-append : (k : Bool) (es fs : List Effect) → known k (es ++ fs) ≡ known (known k es) fs
known-append k [] fs = refl
known-append k (notifies_sender allowed ∷ es) fs = known-append allowed es fs
known-append k (notifies e ∷ es) fs = known-append k es fs
known-append k (removes_session ∷ es) fs = known-append k es fs
known-append k (kicks c ∷ es) fs = known-append k es fs
known-append k (increments_received c n ∷ es) fs = known-append k es fs
known-append k (subscribes c d ∷ es) fs = known-append k es fs
known-append k (watches c ∷ es) fs = known-append k es fs
known-append k (subscribes_session c ∷ es) fs = known-append k es fs

pub ends-append : (es fs : List Effect) → ends (es ++ fs) ≡ (ends es || ends fs)
ends-append [] fs = refl
ends-append (notifies_sender allowed ∷ es) fs = ends-append es fs
ends-append (notifies e ∷ es) fs = ends-append es fs
ends-append (removes_session ∷ es) fs = refl
ends-append (kicks c ∷ es) fs = ends-append es fs
ends-append (increments_received c n ∷ es) fs = ends-append es fs
ends-append (subscribes c d ∷ es) fs = ends-append es fs
ends-append (watches c ∷ es) fs = ends-append es fs
ends-append (subscribes_session c ∷ es) fs = ends-append es fs

pub known-tell_removed : (k : Bool) (removed : List ℕ) → known k (tell_removed removed) ≡ k
known-tell_removed k [] = refl
known-tell_removed k (i ∷ is) = refl
