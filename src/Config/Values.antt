-- ===== src/Config/Values.antt =====
-- The tests that the programs make of their environment: numbers in a range, hosts and databases.
use custom_wikibase.Prelude.{
  ℕ, Bool, true, false, ◌&&◌, ◌||◌, Option, none, some, [], ◌∷◌, Text, codes, ◌==◌, leb, ltb,
  text_eq, strip_prefix, is_digit, Dict, lookup, Result, ok, err, if◌then◌else◌,
}

-- `process.env`.
abbrev pub Env : Type 0
Env = Dict Text

-- What the program reads of `new URL(value)`.
pub record Url : Type 0 where
  pub protocol : Text
  pub hostname : Text
  pub username : Text
  pub password : Text
  pub pathname : Text
  pub search : Text
  pub hash : Text
  pub href : Text

-- `new URL`, which may throw, and `Number`, `none` where that is no integer from 0 on.
pub record Host : Type 0 where
  pub parse_url : Text → Result Url
  pub number : Text → Option ℕ

-- `env.NAME ?? fallback`.
unfoldable pub env_or : Text → Text → Env → Text
env_or name fallback env = elim (lookup name env) [ none ↦ fallback | some v ↦ v ]

-- `bounded`.
unfoldable pub bounded : Host → Option Text → ℕ → ℕ → ℕ → Result ℕ
bounded h value min max fallback =
    elim (elim value as (λ _. Option ℕ) [ none ↦ some fallback | some v ↦ h.number v ]) [
      | none ↦ err (codes "numeric configuration out of range")
      | some n ↦
          if ltb n min || ltb max n then err (codes "numeric configuration out of range") else ok n
    ]

abbrev pub is_empty_text : Text → Bool
is_empty_text [] = true
is_empty_text (_ ∷ _) = false

-- `!url.username && !url.password`.
unfoldable pub has_no_credentials : Url → Bool
has_no_credentials u = is_empty_text u.username && is_empty_text u.password

-- `toString().replace(/\/$/u, '')`.
unfoldable pub without_slash : Text → Text
without_slash [] = []
without_slash (c ∷ []) = if c == b'/' then [] else c ∷ []
without_slash (c ∷ d ∷ s) = c ∷ without_slash (d ∷ s)

abbrev pub is_lower_or_digit : ℕ → Bool
is_lower_or_digit c = (leb b'a' c && leb c b'z') || is_digit c

-- The rest of a label: `[-a-z0-9]*[a-z0-9]` or nothing, and the fixed domain after it.
unfoldable pub is_label_rest : Bool → Text → Bool
is_label_rest ends [] = false
is_label_rest ends (c ∷ s) =
    let rest = is_label_rest (is_lower_or_digit c) s in
    (ends && text_eq (c ∷ s) (codes ".svc.cluster.local"))
    || ((is_lower_or_digit c || c == b'-') && rest)

-- `[a-z0-9](?:[-a-z0-9]*[a-z0-9])?\.svc\.cluster\.local`.
unfoldable pub is_service : Text → Bool
is_service [] = false
is_service (c ∷ s) = is_lower_or_digit c && is_label_rest true s

-- `/^wikibase(?:\.[a-z0-9](?:[-a-z0-9]*[a-z0-9])?\.svc\.cluster\.local)?$/u`.
unfoldable pub is_wikibase_host : Text → Bool
is_wikibase_host host = elim (strip_prefix (codes "wikibase") host) [
  | none ↦ false
  | some [] ↦ true
  | some (c ∷ s) ↦ c == b'.' && is_service s
]

unfoldable pub strip_scheme : Text → Option Text
strip_scheme url = elim (strip_prefix (codes "postgresql://") url) [
  | some s ↦ some s
  | none ↦ strip_prefix (codes "postgres://") url
]

-- `[^@/]*@`: what stands before the first `@`, and after it.
unfoldable pub split_at_sign : Text → Option (Text × Text)
split_at_sign [] = none
split_at_sign (c ∷ s) =
    let rest = split_at_sign s in
    if c == b'@'
    then some ([], s)
    else if c == b'/'
    then none
    else elim rest [ none ↦ none | some (a, b) ↦ some (c ∷ a, b) ]

-- A colon that is not the last character.
unfoldable pub has_colon : Text → Bool
has_colon [] = false
has_colon (c ∷ []) = false
has_colon (c ∷ d ∷ s) = c == b':' || has_colon (d ∷ s)

-- `[^@/]+:[^@/]+`.
unfoldable pub is_user_and_password : Text → Bool
is_user_and_password [] = false
is_user_and_password (c ∷ s) = has_colon s

-- `[a-z0-9_]+`, to the end.
unfoldable pub is_database_name : Text → Bool
is_database_name [] = false
is_database_name (c ∷ []) = is_lower_or_digit c || c == b'_'
is_database_name (c ∷ d ∷ s) = (is_lower_or_digit c || c == b'_') && is_database_name (d ∷ s)

-- `\d*\/[a-z0-9_]+`, to the end.
unfoldable pub is_port_and_name : Text → Bool
is_port_and_name [] = false
is_port_and_name (c ∷ s) =
    let rest = is_port_and_name s in (is_digit c && rest) || (c == b'/' && is_database_name s)

-- `127\.0\.0\.1:\d+\/[a-z0-9_]+`.
unfoldable pub is_local_database : Text → Bool
is_local_database s = elim (strip_prefix (codes "127.0.0.1:") s) [
  | none ↦ false
  | some [] ↦ false
  | some (c ∷ t) ↦ is_digit c && is_port_and_name t
]

-- A URL of PostgreSQL: the tests of the credentials and of what follows them.
unfoldable pub is_database_url : (Text → Bool) → (Text → Bool) → Text → Bool
is_database_url user place url = elim (strip_scheme url) [
  | none ↦ false
  | some s ↦ elim (split_at_sign s) [ none ↦ false | some (a, b) ↦ user a && place b ]
]

abbrev pub is_cluster_database : Text → Bool
is_cluster_database s =
    text_eq s (codes "controller-postgres.jwb-system.svc.cluster.local:5432/jwb")

abbrev pub is_compose_database : Text → Bool
is_compose_database s = text_eq s (codes "jwb-postgresql:5432/japan_wikibase_query")
