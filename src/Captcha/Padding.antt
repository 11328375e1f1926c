-- ===== src/Captcha/Padding.antt =====
-- What the loop of `HashSignature::sign` leaves.
use put_in_pipe.Common.{
  ℕ, zero, suc, ◌≤◌, ◌==◌, ◌≡◌, refl, ◌∙◌, Bool, not, [], ◌∷◌, ◌++◌, none, some, length, keep,
  Bytes, arith, Option-cases, inl, inr,
}
use put_in_pipe.Captcha.Texts.{rfind, erase_at}
use put_in_pipe.Captcha.Crypto.{Crypto, erase_padding, sign}

abbrev not_padding : ℕ → Bool
not_padding c = not (c == b'=')

rfind-none : (t : Bytes) → rfind b'=' t ≡ none → keep not_padding t ≡ t
unfolding rfind
rfind-none [] h = refl
rfind-none (c ∷ cs) h = ground (arith, rfind-none cs, Option-cases (rfind b'=' cs))

rfind-some :
    (t : Bytes) (k : ℕ)
    → rfind b'=' t ≡ some k
    → (keep not_padding (erase_at k t) ≡ keep not_padding t)
      × suc (length (erase_at k t)) ≡ length t
unfolding rfind
rfind-some [] k h = absurd cc
rfind-some (c ∷ cs) zero h = ground (arith, Option-cases (rfind b'=' cs))
rfind-some (c ∷ cs) (suc k) h = ground (arith, Option-cases (rfind b'=' cs), rfind-some cs k)

erase-step :
    (fuel : ℕ) (t : Bytes) (k : ℕ)
    → erase_padding (suc fuel) t (some k)
      ≡ erase_padding fuel (erase_at k t) (rfind b'=' (erase_at k t))
unfolding erase_padding
erase-step fuel t k = refl

erase-none : (fuel : ℕ) (t : Bytes) → erase_padding fuel t none ≡ t
unfolding erase_padding
erase-none zero t = refl
erase-none (suc fuel) t = refl

erase-keeps :
    (fuel : ℕ) (t : Bytes)
    → length t ≤ fuel
    → erase_padding fuel t (rfind b'=' t) ≡ keep not_padding t
erase-keeps zero [] h = unfold rfind in erase-none zero []
erase-keeps zero (c ∷ cs) h = absurd (omega arith)
erase-keeps (suc fuel) t h = elim (Option-cases (rfind b'=' t)) [
  | inl e ↦ rw (e, erase-none (suc fuel) t, rfind-none t e) refl
  | inr (k, e) ↦
      rw (e, erase-step fuel t k)
        (erase-keeps fuel (erase_at k t) (omega (arith, (rfind-some t k e).1))
          ∙ (rfind-some t k e).0)
]

-- The signature is the hash in base64 without its padding (and the loop leaves none).
pub sign-keep :
    (crypto : Crypto) (t : Bytes)
    → sign crypto t
      ≡ keep not_padding (crypto.encode_urlsafe (crypto.sha256 (t ++ crypto.hash_key)))
unfolding sign
sign-keep crypto t =
    let r = crypto.encode_urlsafe (crypto.sha256 (t ++ crypto.hash_key)) in
    erase-keeps (length r) r (omega arith)
