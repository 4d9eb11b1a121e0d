-- ===== src/Platform/Envconfig.antt =====
-- The environment of the processes (pkg/platform/envconfig/envconfig.go). What os.Getenv gives is an
-- argument, as are the parsers of the standard library.
use freshflow.Prelude.{ℕ, String, Option, none, some, List, [], ◌∷◌, if◌then◌else◌, Result, ok, err}
use freshflow.Prelude.Int.{ℤ, pos, ltb_ℤ}
use freshflow.Platform.Bytes.{bytes_eq, trim_space, split_from}

-- `String`
unfoldable pub string : (String → List ℕ) → String → List ℕ → List ℕ
string getenv key fallback =
    if bytes_eq (trim_space (getenv key)) [] then fallback else trim_space (getenv key)

-- `Int`
unfoldable pub int : (List ℕ → Option ℤ) → (String → List ℕ) → String → ℤ → Result (Unit {0}) ℤ
int atoi getenv key fallback =
    if bytes_eq (trim_space (getenv key)) []
    then ok fallback
    else elim (atoi (trim_space (getenv key))) [ none ↦ err tt | some n ↦ ok n ]

-- `Duration`
unfoldable pub duration : (List ℕ → Option ℤ) → (String → List ℕ) → String → ℤ → Result (Unit {0}) ℤ
duration parse_duration getenv key fallback =
    if bytes_eq (trim_space (getenv key)) []
    then ok fallback
    else elim (parse_duration (trim_space (getenv key))) [
      | none ↦ err tt
      | some d ↦ if ltb_ℤ d (pos 1) then err tt else ok d
    ]

-- The parts that are not blank, without the white space around them.
unfoldable pub non_empty : List (List ℕ) → List (List ℕ)
non_empty [] = []
non_empty (p ∷ ps) =
    let rest = non_empty ps in if bytes_eq (trim_space p) [] then rest else trim_space p ∷ rest

-- `strings.Split` on a comma, and the loop over its parts.
unfoldable pub split_non_empty : List ℕ → List (List ℕ)
unfolding non_empty
split_non_empty raw = non_empty (split_from b',' [] raw)

-- `CSV`
unfoldable pub csv : (String → List ℕ) → String → List ℕ → List (List ℕ)
unfolding split_non_empty string
csv getenv key fallback = split_non_empty (string getenv key fallback)
