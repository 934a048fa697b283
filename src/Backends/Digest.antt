-- ===== src/Backends/Digest.antt =====
-- `parseDigestChallenge` of services/rdf-backends/src/sparql-http-backend.js, and the answer to a challenge.
-- A header holds the code points up to 255.
use custom_wikibase.Prelude.{
  ℕ, suc, zero, ◌+◌, Bool, true, false, not, ◌&&◌, ◌||◌, Option, none, some, List, [], ◌∷◌, ◌++◌,
  Text, codes, ◌==◌, leb, length, includes, Dict, lookup, insert, Result, ok, err, if◌then◌else◌,
  is_upper,
}
use custom_wikibase.Backends.Metadata.{join_names}

pub record Credentials : Type 0 where
  pub username : Text
  pub password : Text

-- `\s`.
abbrev is_space : ℕ → Bool
is_space c = c == 32 || c == 160 || (leb 9 c && leb c 13)

abbrev is_letter : ℕ → Bool
is_letter c = is_upper c || (leb b'a' c && leb c b'z')

abbrev lower : ℕ → ℕ
lower c = if is_upper c then c + 32 else c

-- `[^"]*"`: what the quotes hold, and what follows them.
unfoldable pub quoted : Text → Option (Text × Text)
quoted [] = none
quoted (c ∷ s) =
    if c == 34
    then some ([], s)
    else elim (quoted s) [ none ↦ none | some (v, r) ↦ some (c ∷ v, r) ]

-- `[^,\s]*`, as long as it can be.
unfoldable pub token : Text → Text × Text
token [] = ([], [])
token (c ∷ s) = let (v, r) = token s in if c == b',' || is_space c then ([], c ∷ s) else (c ∷ v, r)

unfoldable pub token_value : Text → Option (Text × Text)
token_value s = let (t, r) = token s in elim t [ [] ↦ none | c ∷ v ↦ some (c ∷ v, r) ]

-- `"([^"]*)"|([^,\s]+)`.
unfoldable pub value_of : Text → Option (Text × Text)
value_of [] = none
value_of (c ∷ s) =
    if c == 34
    then elim (quoted s) [ none ↦ token_value (c ∷ s) | some q ↦ some q ]
    else token_value (c ∷ s)

-- The dictionary, the letters read so far, and the text that is left.
abbrev Scan : Type 0
Scan = Dict Text × Text × Text

-- One step of `matchAll(/([a-z]+)=(?:…)/giu)`: a letter of a name, a value, or anything else.
unfoldable pub scan_step : Dict Text → Text → ℕ → Text → Scan
scan_step d name c s =
    if is_letter c
    then (d, name ++ lower c ∷ [], s)
    else if not (c == b'=')
    then (d, [], s)
    else elim name [
      | [] ↦ (d, [], s)
      | n ∷ ns ↦ elim (value_of s) [
        | none ↦ (d, [], s)
        | some (v, r) ↦ (insert (n ∷ ns) v d, [], r)
      ]
    ]

unfoldable pub scan : ℕ → Dict Text → Text → Text → Dict Text
scan zero d name s = d
scan (suc fuel) d name [] = d
scan (suc fuel) d name (c ∷ s) = let (d', name', r) = scan_step d name c s in scan fuel d' name' r

-- `text.split(',')`.
unfoldable pub split_commas : Text → List Text
split_commas [] = [] ∷ []
split_commas (c ∷ s) = elim (split_commas s) [
  | [] ↦ [] ∷ []
  | t ∷ ts ↦ if c == b',' then [] ∷ t ∷ ts else (c ∷ t) ∷ ts
]

unfoldable pub trim_start : Text → Text
trim_start [] = []
trim_start (c ∷ s) = let rest = trim_start s in if is_space c then rest else c ∷ s

unfoldable pub trim_end : Text → Text
trim_end [] = []
trim_end (c ∷ s) = elim (trim_end s) [ [] ↦ if is_space c then [] else c ∷ [] | d ∷ t ↦ c ∷ d ∷ t ]

unfoldable pub trim_all : List Text → List Text
trim_all [] = []
trim_all (t ∷ ts) = trim_end (trim_start t) ∷ trim_all ts

-- A string in a condition: the empty one counts as missing.
unfoldable pub truthy : Option Text → Option Text
truthy none = none
truthy (some []) = none
truthy (some (c ∷ s)) = some (c ∷ s)

abbrev is_present : Option Text → Bool
is_present o = elim (truthy o) [ none ↦ false | some _ ↦ true ]

unfoldable pub offers_auth : Option Text → Bool
offers_auth qop = elim (truthy qop) [
  | none ↦ true
  | some q ↦ includes (trim_all (split_commas q)) (codes "auth")
]

unfoldable pub parse_digest_challenge : Text → Result (Dict Text)
parse_digest_challenge value =
    let parsed = scan (suc (length value)) [] [] value in
    if is_present (lookup (codes "realm") parsed)
      && is_present (lookup (codes "nonce") parsed)
      && offers_auth (lookup (codes "qop") parsed)
    then ok parsed
    else err (codes "unsupported HTTP Digest challenge")

-- A template string prints a missing value as `undefined`.
abbrev printed : Option Text → Text
printed none = codes "undefined"
printed (some t) = t

unfoldable pub field : Text → Text → Text
field name value = name ++ codes "=\"" ++ value ++ codes "\""

abbrev opaque_field : Option Text → List Text
opaque_field none = []
opaque_field (some o) = field (codes "opaque") o ∷ []

-- The header `authorization`, for the digest function `md5`.
unfoldable pub authorization : (Text → Text) → Credentials → Dict Text → Text → Text → Text → Text
authorization md5 auth values method uri cnonce =
    let realm = printed (lookup (codes "realm") values) in
    let nonce = printed (lookup (codes "nonce") values) in
    let nc = codes "00000001" in
    let ha1 = md5 (auth.username ++ codes ":" ++ realm ++ codes ":" ++ auth.password) in
    let ha2 = md5 (method ++ codes ":" ++ uri) in
    let response = md5 (
      ha1
      ++ codes ":"
      ++ nonce
      ++ codes ":"
      ++ nc
      ++ codes ":"
      ++ cnonce
      ++ codes ":auth:"
      ++ ha2) in
    join_names (
      (codes "Digest " ++ field (codes "username") auth.username)
      ∷ field (codes "realm") realm
      ∷ field (codes "nonce") nonce
      ∷ field (codes "uri") uri
      ∷ field (codes "response") response
      ∷ codes "qop=auth"
      ∷ (codes "nc=" ++ nc)
      ∷ field (codes "cnonce") cnonce
      ∷ opaque_field (truthy (lookup (codes "opaque") values)))
