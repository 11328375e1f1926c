-- ===== src/Session/Names.antt =====
-- `setFileInfo`: what name and size a session can have.
use put_in_pipe.Common.{◌≡◌, refl, false, [], ◌∷◌, All, Bytes, ap}
use put_in_pipe.Session.{Session}
use put_in_pipe.Session.Info.{is_forbidden, clean_name}

pub clean_name_id : (name : Bytes) → All (λ c. is_forbidden c ≡ false) name → clean_name name ≡ name
unfolding clean_name
clean_name_id [] a = refl
clean_name_id (c ∷ name) a = rw a.0 (ap (◌∷◌ c) (clean_name_id name a.1))
