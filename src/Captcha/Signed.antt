-- ===== src/Captcha/Signed.antt =====
-- Only signed texts are accepted.
use put_in_pipe.Common.{
  ◌≡◌, ◌∙◌, sym, List, [], ◌∷◌, ◌++◌, some, Bytes, arith, append_assoc, Bool-cases, inl, inr,
}
use put_in_pipe.Session.Receivers.{text_eq}
use put_in_pipe.Captcha.Split.{pieces, split-pieces, join_pieces, join-pieces}
use put_in_pipe.Captcha.Crypto.{Crypto, sign}
use put_in_pipe.Captcha.Token.{Token, open_parts, of_parts, from_string}
use put_in_pipe.Captcha.Lawful.{text_eq-true}

module _ (crypto : Crypto) where
  -- A text that ends with the signature of what stands before its last point.
  abbrev pub IsSigned : Bytes → Type 0
  IsSigned text = (signed : Bytes) × (text ≡ signed ++ b'.' ∷ sign crypto signed)

  open_parts-signed :
      (first second signature : Bytes) (t : Token)
      → open_parts crypto first second signature ≡ some t
      → sign crypto (first ++ b'.' ∷ second) ≡ signature
  unfolding open_parts
  open_parts-signed first second signature t h =
      elim (Bool-cases (text_eq (sign crypto (first ++ b'.' ∷ second)) signature)) [
        | inl e ↦ text_eq-true _ _ e
        | inr e ↦ absurd (ground (arith, h, e))
      ]

  of_parts-IsSigned :
      (parts : List Bytes) (t : Token)
      → of_parts crypto parts ≡ some t
      → IsSigned (join_pieces b'.' parts)
  unfolding of_parts
  of_parts-IsSigned (first ∷ second ∷ signature ∷ []) t h = (
    first ++ b'.' ∷ second,
    rw (open_parts-signed first second signature t h)
        (sym (append_assoc first (b'.' ∷ second) (b'.' ∷ signature))),
  )
  of_parts-IsSigned [] t h = absurd cc
  of_parts-IsSigned (a ∷ []) t h = absurd cc
  of_parts-IsSigned (a ∷ b ∷ []) t h = absurd cc
  of_parts-IsSigned (a ∷ b ∷ c ∷ d ∷ r) t h = absurd cc

  -- Every text that is accepted as a token ends with the signature of all that stands before its last
  -- point, which takes the key to make.
  pub accepted-IsSigned :
      (text : Bytes) (t : Token) → from_string crypto text ≡ some t → IsSigned text
  unfolding from_string
  accepted-IsSigned text t h =
      let parts : of_parts crypto (pieces b'.' text) ≡ some t =
        ground (arith, h, split-pieces text b'.') in
      let (signed, e) = of_parts-IsSigned (pieces b'.' text) t parts in
      (signed, sym (join-pieces b'.' text) ∙ e)
