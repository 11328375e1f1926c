-- ===== src/Captcha/Split.antt =====
-- What `split` gives.
use put_in_pipe.Common.{
  ℕ, zero, suc, ◌+◌, ◌-◌, ◌≤◌, ◌<◌, ◌==◌, ◌≡◌, ◌≢◌, refl, ap, ◌∙◌, sym, List, [], ◌∷◌, ◌++◌, none,
  some, length, take, drop, All, Bytes, if◌then◌else◌, arith, Bool-cases, Option-cases, inl, inr,
  append_assoc,
}
use put_in_pipe.Captcha.Texts.{find, find_from, substr, split_loop, split}

abbrev pub join_pieces : ℕ → List Bytes → Bytes
join_pieces d [] = []
join_pieces d (p ∷ []) = p
join_pieces d (p ∷ q ∷ ps) = p ++ d ∷ join_pieces d (q ∷ ps)

prepend : ℕ → List Bytes → List Bytes
prepend c [] = (c ∷ []) ∷ []
prepend c (p ∷ ps) = (c ∷ p) ∷ ps

-- The parts of a text between its delimiters, letter by letter.
unfoldable pub pieces : ℕ → Bytes → List Bytes
unfolding prepend
pieces d [] = [] ∷ []
pieces d (c ∷ cs) = let rest = pieces d cs in if c == d then [] ∷ rest else prepend c rest

abbrev pub Free : ℕ → Bytes → Type 0
Free d t = All (λ c. c ≢ d) t

drop-nil : (n : ℕ) → drop {A = ℕ} n [] ≡ []
drop-nil zero = refl
drop-nil (suc n) = refl

pub drop-drop : (m n : ℕ) (t : Bytes) → drop n (drop m t) ≡ drop (m + n) t
drop-drop zero n t = ground arith
drop-drop (suc m) zero [] = ground arith
drop-drop (suc m) (suc n) [] = sym (drop-nil (suc m + suc n))
drop-drop (suc m) n (c ∷ cs) =
    let next : suc m + n ≡ suc (m + n) = omega arith in rw next (drop-drop m n cs)

pub length-drop-le : (n : ℕ) (t : Bytes) → length (drop n t) ≤ length t
length-drop-le zero t = omega arith
length-drop-le (suc n) [] = omega arith
length-drop-le (suc n) (c ∷ cs) = omega (arith, length-drop-le n cs)

pieces-none : (d : ℕ) (t : Bytes) → find d t ≡ none → pieces d t ≡ t ∷ []
unfolding find pieces prepend
pieces-none d [] h = refl
pieces-none d (c ∷ cs) h = ground (arith, pieces-none d cs)

pieces-some :
    (d k : ℕ) (t : Bytes)
    → find d t ≡ some k
    → (pieces d t ≡ take k t ∷ pieces d (drop (suc k) t)) × length (drop (suc k) t) < length t
unfolding find pieces prepend
pieces-some d k [] h = absurd cc
pieces-some d zero (c ∷ cs) h = ground arith
pieces-some d (suc k) (c ∷ cs) h = ground (arith, pieces-some d k cs)

from_start : (d : ℕ) (t : Bytes) → find_from d 0 t ≡ find d t
unfolding find_from
from_start d t = ground (arith, Option-cases (find d t))

last-piece :
    (t : Bytes) (d fuel : ℕ) (tokens : List Bytes) (start : ℕ)
    → find d (drop start t) ≡ none
    → split_loop t d fuel tokens start (find_from d start t)
      ≡ some (tokens ++ pieces d (drop start t))
unfolding split_loop find_from
last-piece t d zero tokens start e =
    rw (find_from, e, split_loop, pieces-none d (drop start t) e) refl
last-piece t d (suc fuel) tokens start e =
    rw (find_from, e, split_loop, pieces-none d (drop start t) e) refl

loop-step :
    (t : Bytes) (d fuel : ℕ) (tokens : List Bytes) (start end' : ℕ)
    → split_loop t d (suc fuel) tokens start (some end')
      ≡ split_loop t d fuel
          (tokens ++ substr t start (end' - start) ∷ [])
          (suc end')
          (find_from d (suc end') t)
unfolding split_loop
loop-step t d fuel tokens start end' = refl

-- The loop adds the pieces of what is left of the text.
loop-pieces :
    (t : Bytes) (d fuel : ℕ) (tokens : List Bytes) (start : ℕ)
    → length (drop start t) ≤ fuel
    → split_loop t d fuel tokens start (find_from d start t)
      ≡ some (tokens ++ pieces d (drop start t))
unfolding split_loop find_from
loop-pieces t d zero tokens start room = elim (Option-cases (find d (drop start t))) [
  | inl e ↦ last-piece t d zero tokens start e
  | inr (k, e) ↦ absurd (omega (arith, (pieces-some d k (drop start t) e).1))
]
loop-pieces t d (suc fuel) tokens start room = elim (Option-cases (find d (drop start t))) [
  | inl e ↦ last-piece t d (suc fuel) tokens start e
  | inr (k, e) ↦
      let piece = pieces-some d k (drop start t) e in
      let place : start + suc k ≡ suc (start + k) = omega arith in
      let next : drop (suc k) (drop start t) ≡ drop (suc (start + k)) t =
        drop-drop start (suc k) t ∙ ap (λ n. drop n t) place in
      let width : start + k - start ≡ k = omega arith in
      let x = substr t start k in
      rw (find_from, e, loop-step t d fuel tokens start (start + k), width, piece.0, next)
        (loop-pieces t d fuel (tokens ++ x ∷ []) (suc (start + k)) (ground (arith, piece.1, next))
          ∙ ap some (append_assoc tokens (x ∷ []) (pieces d (drop (suc (start + k)) t))))
]

-- `split` always ends, in no more rounds than the text has bytes, and gives the parts between the delimiters.
pub split-pieces : (t : Bytes) (d : ℕ) → split t d ≡ some (pieces d t)
unfolding split find_from
split-pieces t d = rw (sym (from_start d t)) (loop-pieces t d (length t) [] 0 (omega arith))

pub pieces-Free : (d : ℕ) (t : Bytes) → Free d t → pieces d t ≡ t ∷ []
unfolding pieces prepend
pieces-Free d [] h = refl
pieces-Free d (c ∷ cs) h = ground (arith, pieces-Free d cs h.1)

pub pieces-append : (d : ℕ) (a t : Bytes) → Free d a → pieces d (a ++ d ∷ t) ≡ a ∷ pieces d t
unfolding pieces prepend
pieces-append d [] t h = ground arith
pieces-append d (c ∷ cs) t h = ground (arith, pieces-append d cs t h.1)

join-prepend : (d c : ℕ) (ps : List Bytes) → join_pieces d (prepend c ps) ≡ c ∷ join_pieces d ps
unfolding prepend
join-prepend d c [] = refl
join-prepend d c (p ∷ []) = refl
join-prepend d c (p ∷ q ∷ ps) = refl

join-nil :
    (d c : ℕ) (ps : List Bytes)
    → join_pieces d ([] ∷ prepend c ps) ≡ d ∷ join_pieces d (prepend c ps)
unfolding prepend
join-nil d c [] = refl
join-nil d c (p ∷ ps) = refl

pieces-cons : (d : ℕ) (t : Bytes) → join_pieces d ([] ∷ pieces d t) ≡ d ∷ join_pieces d (pieces d t)
unfolding pieces prepend
pieces-cons d [] = refl
pieces-cons d (c ∷ cs) = elim (Bool-cases (c == d)) [
  | inl e ↦ rw e refl
  | inr e ↦ rw e (join-nil d c (pieces d cs))
]

-- The parts with the delimiters between them are the text again.
pub join-pieces : (d : ℕ) (t : Bytes) → join_pieces d (pieces d t) ≡ t
unfolding pieces
join-pieces d [] = refl
join-pieces d (c ∷ cs) = elim (Bool-cases (c == d)) [
  | inl e ↦ rw e (pieces-cons d cs ∙ ground (arith, join-pieces d cs))
  | inr e ↦ rw e (join-prepend d c (pieces d cs) ∙ ap (c ∷◌) (join-pieces d cs))
]
