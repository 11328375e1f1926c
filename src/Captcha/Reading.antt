-- ===== src/Captcha/Reading.antt =====
-- The round trip of the private payload of a token that expires.
use put_in_pipe.Common.{
  ℕ, suc, ◌+◌, ◌-◌, ◌<◌, ◌==◌, u64, ◌≡◌, refl, ◌∙◌, sym, ap, [], ◌∷◌, ◌++◌, none, some, length,
  take, drop, Bytes, All, arith, append_assoc, true, false, is_empty, length-append,
}
use put_in_pipe.Numerals.{
  ℤ, pos, negsuc, print, stoll, fits, is_digit, skip_space, sign_and_rest, magnitude,
}
use put_in_pipe.Numerals.Reading.{to_string-All, stoll-print}
use put_in_pipe.Captcha.Texts.{rfind}
use put_in_pipe.Captcha.Split.{Free}
use put_in_pipe.Captcha.Payload.{PrivatePayload, dump, between, from_string}

digits-Free : (t : Bytes) → All (λ c. is_digit c ≡ true) t → Free b'|' t
digits-Free [] h = tt
digits-Free (c ∷ cs) h = ground (arith, h, digits-Free cs h.1)

print-Free : (z : ℤ) → Free b'|' (print z)
unfolding print
print-Free (pos n) = digits-Free _ (to_string-All n)
print-Free (negsuc n) = ((λ e. omega arith), digits-Free _ (to_string-All (n + 1)))

take-append : (a b : Bytes) → take (length a) (a ++ b) ≡ a
take-append [] b = refl
take-append (c ∷ cs) b = ap (c ∷◌) (take-append cs b)

drop-append : (a b : Bytes) → drop (length a) (a ++ b) ≡ b
drop-append [] b = refl
drop-append (c ∷ cs) b = drop-append cs b

rfind-Free : (d : ℕ) (t : Bytes) → Free d t → rfind d t ≡ none
unfolding rfind
rfind-Free d [] h = refl
rfind-Free d (c ∷ cs) h = ground (arith, rfind-Free d cs h.1)

rfind-last : (d : ℕ) (a b : Bytes) → Free d b → rfind d (a ++ d ∷ b) ≡ some (length a)
unfolding rfind
rfind-last d [] b h = ground (arith, rfind-Free d b h)
rfind-last d (c ∷ cs) b h = ground (arith, rfind-last d cs b h)

drop-past : (d : ℕ) (a b : Bytes) → drop (length a + 1) (a ++ d ∷ b) ≡ b
drop-past d [] b = ground arith
drop-past d (c ∷ cs) b =
    let next : suc (length cs) + 1 ≡ suc (length cs + 1) = omega arith in rw next (drop-past d cs b)

nothing_read : stoll [] ≡ none
unfolding stoll skip_space sign_and_rest magnitude
nothing_read = refl

number-long : (t : Bytes) (z : ℤ) → stoll t ≡ some z → 0 < length t
number-long [] z h = absurd (ground (arith, h, nothing_read))
number-long (c ∷ cs) z h = omega arith

-- What is read between the separators of a text made of three parts.
between-parts :
    (u c l : Bytes) (created lifetime : ℤ)
    → length u + length c + 1 < 18446744073709551616
    → stoll c ≡ some created
    → stoll l ≡ some lifetime
    → between ((u ++ b'|' ∷ c) ++ b'|' ∷ l) (length u + length c + 1) (length u)
      ≡ some (record { users_payload = u; created = created; lifetime = lifetime })
unfolding between
between-parts u c l created lifetime small hc hl =
    let front = u ++ b'|' ∷ c in
    let regroup : front ++ b'|' ∷ l ≡ u ++ b'|' ∷ (c ++ b'|' ∷ l) =
      append_assoc u (b'|' ∷ c) (b'|' ∷ l) in
    let width : u64 (length u + length c + 1 + 18446744073709551616 - (length u + 1)) ≡ length c =
      omega arith in
    let middle : drop (length u + 1) (front ++ b'|' ∷ l) ≡ c ++ b'|' ∷ l =
      ap (drop (length u + 1)) regroup ∙ drop-past b'|' u (c ++ b'|' ∷ l) in
    let size : length front ≡ length u + length c + 1 = omega (arith, length-append u (b'|' ∷ c)) in
    let end : drop (length u + length c + 1 + 1) (front ++ b'|' ∷ l) ≡ l =
      ap (λ n. drop (n + 1) (front ++ b'|' ∷ l)) (sym size) ∙ drop-past b'|' front l in
    let user : take (length u) (front ++ b'|' ∷ l) ≡ u =
      ap (take (length u)) regroup ∙ take-append u (b'|' ∷ (c ++ b'|' ∷ l)) in
    rw (between, width, middle, take-append c (b'|' ∷ l), hc, end, hl, user) refl

-- Round trip: whatever the user's payload holds, separators included, the payload is read back as it
-- was printed when its times fit in `long long` and its text is shorter than 2^64.
pub payload-round_trip :
    (p : PrivatePayload)
    → fits p.created ≡ true
    → fits p.lifetime ≡ true
    → length (dump p) < 18446744073709551616
    → from_string (dump p) ≡ some p
unfolding dump from_string
payload-round_trip p fc fl small =
    let u = p.users_payload in
    let c = print p.created in
    let l = print p.lifetime in
    let front = u ++ b'|' ∷ c in
    let t = front ++ b'|' ∷ l in
    let long = number-long l p.lifetime (stoll-print p.lifetime fl) in
    let size : length front ≡ length u + length c + 1 = omega (arith, length-append u (b'|' ∷ c)) in
    let whole : length t ≡ length front + 1 + length l =
      omega (arith, length-append front (b'|' ∷ l)) in
    let some_text : is_empty t ≡ false = ground (arith, whole) in
    let not_last : (length front == length t - 1) ≡ false = ground (arith, whole, long) in
    let before : suc (u64 (length front + 18446744073709551615)) ≡ length front =
      omega (arith, size, whole, small) in
    rw
      (
        dump,
        from_string,
        some_text,
        rfind-last b'|' front l (print-Free p.lifetime),
        not_last,
        before,
        take-append front (b'|' ∷ l),
        rfind-last b'|' u c (print-Free p.created),
        size,
        between-parts u c l p.created p.lifetime (omega (arith, size, whole, small))
            (stoll-print p.created fc) (stoll-print p.lifetime fl),
      )
      refl
