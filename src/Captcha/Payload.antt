-- ===== src/Captcha/Payload.antt =====
-- token.cpp: `ExpiringToken::PrivatePayload`. Times are numbers of seconds.
use put_in_pipe.Common.{
  ℕ, suc, ◌+◌, ◌-◌, ◌==◌, ltb, u64, Bool, ◌∷◌, ◌++◌, Option, none, some, length, take, drop,
  is_empty, Bytes, if◌then◌else◌,
}
use put_in_pipe.Numerals.{ℤ, pos, negsuc, print, stoll}
use put_in_pipe.Captcha.Texts.{rfind, substr}

pub record PrivatePayload : Type 0 where
  pub users_payload : Bytes
  pub created : ℤ
  pub lifetime : ℤ

unfoldable pub dump : PrivatePayload → Bytes
dump p = p.users_payload ++ b'|' ∷ print p.created ++ b'|' ∷ print p.lifetime

-- The numbers between and after two separators; `none` is the answer `false`.
unfoldable pub between : Bytes → ℕ → ℕ → Option PrivatePayload
between t last_sep prev_sep =
    elim (stoll
      (substr t (prev_sep + 1) (u64 (last_sep + 18446744073709551616 - (prev_sep + 1))))) [
        | none ↦ none
        | some created ↦ elim (stoll (drop (last_sep + 1) t)) [
          | none ↦ none
          | some lifetime ↦
              some
                (record { users_payload = take prev_sep t; created = created; lifetime = lifetime })
        ]
      ]

-- `rfind` up to a position, which wraps where the last separator is the first character.
unfoldable pub from_string : Bytes → Option PrivatePayload
from_string t = if is_empty t then none else elim (rfind b'|' t) [
  | none ↦ none
  | some last_sep ↦
      if last_sep == length t - 1
      then none
      else elim (rfind b'|' (take (suc (u64 (last_sep + 18446744073709551615))) t)) [
        | none ↦ none
        | some prev_sep ↦ between t last_sep prev_sep
      ]
]

-- The two sides of zero.
abbrev above : ℤ → ℕ
above (pos n) = n
above (negsuc n) = 0

abbrev below : ℤ → ℕ
below (pos n) = 0
below (negsuc n) = suc n

-- Whether `now > created + lifetime`.
abbrev pub is_expired : ℕ → PrivatePayload → Bool
is_expired now p =
    ltb (above p.created + above p.lifetime) (now + below p.created + below p.lifetime)
