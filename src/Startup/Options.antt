-- ===== src/Startup/Options.antt =====
-- What the arguments of the command line lead to.
use put_in_pipe.Common.{◌++◌, bytes_discrete, ◌≡◌, refl, List, [], ◌∷◌, Bytes, codes}
use put_in_pipe.Startup.{parse_arguments}

-- Pairs of an option for the configuration and a path.
abbrev pub configurations : List Bytes → List Bytes
configurations [] = []
configurations (path ∷ paths) = codes "-c" ∷ path ∷ configurations paths

abbrev pub last_of : Bytes → List Bytes → Bytes
last_of default [] = default
last_of default (path ∷ paths) = last_of path paths

-- The last configuration that is given counts, and the arguments after it are read as if it were the
-- default.
pub parse-configurations :
    (default : Bytes) (paths rest : List Bytes)
    → parse_arguments default (configurations paths ++ rest)
      ≡ parse_arguments (last_of default paths) rest
unfolding parse_arguments bytes_discrete
parse-configurations default [] rest = refl
parse-configurations default (path ∷ paths) rest = parse-configurations path paths rest
