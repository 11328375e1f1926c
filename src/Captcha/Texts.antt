-- ===== src/Captcha/Texts.antt =====
-- skaptcha_tools.cpp: `string::split`, and what its code and token.cpp use of `std::string`. A position that is not found is `none`.
use put_in_pipe.Common.{
  ℕ, zero, suc, ◌+◌, ◌-◌, ◌==◌, List, [], ◌∷◌, ◌++◌, Option, none, some, length, take, drop, Bytes,
  if◌then◌else◌,
}

-- `find`, from the start.
unfoldable pub find : ℕ → Bytes → Option ℕ
find d [] = none
find d (c ∷ cs) =
    let rest = find d cs in
    if c == d then some 0 else elim rest [ none ↦ none | some k ↦ some (suc k) ]

-- `find`, from a position.
unfoldable pub find_from : ℕ → ℕ → Bytes → Option ℕ
find_from d start t = elim (find d (drop start t)) [ none ↦ none | some k ↦ some (start + k) ]

-- `rfind`, from the end.
unfoldable pub rfind : ℕ → Bytes → Option ℕ
rfind d [] = none
rfind d (c ∷ cs) = elim (rfind d cs) [
  | some k ↦ some (suc k)
  | none ↦ if c == d then some 0 else none
]

-- `substr`.
abbrev pub substr : Bytes → ℕ → ℕ → Bytes
substr t start count = take count (drop start t)

-- `erase` of one character.
abbrev pub erase_at : ℕ → Bytes → Bytes
erase_at k t = take k t ++ drop (suc k) t

module _ (t : Bytes) (delimiter : ℕ) where
  -- The loop of `split`; `none` is the fuel's end.
  unfoldable pub split_loop : ℕ → List Bytes → ℕ → Option ℕ → Option (List Bytes)
  split_loop fuel tokens start none = some (tokens ++ drop start t ∷ [])
  split_loop zero tokens start (some end') = none
  split_loop (suc fuel) tokens start (some end') =
      split_loop fuel (tokens ++ substr t start (end' - start) ∷ []) (suc end')
        (find_from delimiter (suc end') t)

  -- A round uses up a delimiter of the text.
  unfoldable pub split : Option (List Bytes)
  split = split_loop (length t) [] 0 (find delimiter t)
