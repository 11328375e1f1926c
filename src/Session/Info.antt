-- ===== src/Session/Info.antt =====
-- transfersession.cpp: `setFileInfo`.
use put_in_pipe.Common.{
  ℕ, ◌==◌, ltb, Bool, true, false, ◌||◌, List, [], ◌∷◌, map, length, is_empty, if◌then◌else◌, Bytes,
}
use put_in_pipe.Session.{Session, FileInfo, Effect, notifies, file_info_updated}

abbrev pub name_max_length : ℕ
name_max_length = 255

-- Control characters and / \ : * ? " < > |
unfoldable pub is_forbidden : ℕ → Bool
is_forbidden c =
    ltb c 0x20
    || (c == 47
        || (c == 92
            || (c == 58
                || (c == 42 || (c == 63 || (c == 34 || (c == 60 || (c == 62 || c == 124))))))))

-- The loop over the name: a forbidden byte becomes an underscore.
unfoldable pub clean_name : Bytes → Bytes
clean_name name = map (λ c. if is_forbidden c then b'_' else c) name

unfoldable pub set_file_info : FileInfo → Session → Session × List Effect × Bool
set_file_info info s =
    if is_empty info.name || ltb name_max_length (length info.name)
    then (s, [], false)
    else if info.size == 0
    then (s, [], false)
    else let cleaned : FileInfo = record info { name = clean_name info.name } in
      (record s { file_info = cleaned }, notifies (file_info_updated cleaned) ∷ [], true)
