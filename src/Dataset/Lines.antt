-- ===== src/Dataset/Lines.antt =====
-- Lines of text, and sets of lines in their order. A text is the list of its UTF-16 units, which is what
-- `sort` compares.
use custom_wikibase.Prelude.{
  ℕ, Bool, not, ◌&&◌, ◌||◌, List, [], ◌∷◌, ◌++◌, ◌≡◌, refl, ap, ◌∙◌, arith, Text, ◌==◌, leb,
  text_eq, text_eq_iff, text_lt, includes, if◌then◌else◌,
}

-- `\s`, which `trim` removes too.
unfoldable pub is_white : ℕ → Bool
is_white c =
    (leb 9 c && leb c 13)
    || c == 32
    || c == 160
    || c == 5760
    || (leb 8192 c && leb c 8202)
    || c == 8232
    || c == 8233
    || c == 8239
    || c == 8287
    || c == 12288
    || c == 65279

-- `trimStart` and `trimEnd`.
unfoldable pub trimmed_start : Text → Text
trimmed_start [] = []
trimmed_start (c ∷ s) = let rest = trimmed_start s in if is_white c then rest else c ∷ s

unfoldable pub trimmed_end : Text → Text
trimmed_end [] = []
trimmed_end (c ∷ s) = elim (trimmed_end s) [
  | [] ↦ if is_white c then [] else c ∷ []
  | d ∷ t ↦ c ∷ d ∷ t
]

unfoldable pub trim : Text → Text
trim s = trimmed_end (trimmed_start s)

-- `text.split('\n')`.
unfoldable pub split_lines : Text → List Text
split_lines [] = [] ∷ []
split_lines (c ∷ s) = elim (split_lines s) [
  | [] ↦ [] ∷ []
  | t ∷ ts ↦ if c == 10 then [] ∷ t ∷ ts else (c ∷ t) ∷ ts
]

-- `lines.join('\n')`, and a last line feed where there are lines.
unfoldable pub join_lines : List Text → Text
join_lines [] = []
join_lines (l ∷ ls) = l ++ 10 ∷ join_lines ls

-- `[...new Set(lines)]`.
unfoldable pub without : Text → List Text → List Text
without x [] = []
without x (y ∷ ys) = let rest = without x ys in if text_eq x y then rest else y ∷ rest

unfoldable pub unique : List Text → List Text
unique [] = []
unique (x ∷ xs) = x ∷ without x (unique xs)

-- `lines.sort()`.
unfoldable pub insert_line : Text → List Text → List Text
insert_line x [] = x ∷ []
insert_line x (y ∷ ys) = let rest = insert_line x ys in if text_lt y x then y ∷ rest else x ∷ y ∷ ys

unfoldable pub sort_lines : List Text → List Text
sort_lines [] = []
sort_lines (x ∷ xs) = insert_line x (sort_lines xs)

pub includes-insert_line :
    (x : Text) (l : List Text) (t : Text)
    → includes (insert_line x l) t ≡ (text_eq x t || includes l t)
unfolding includes insert_line
includes-insert_line x [] t = ground arith
includes-insert_line x (y ∷ ys) t = ground (arith, includes-insert_line x ys t)

pub includes-sort_lines : (l : List Text) (t : Text) → includes (sort_lines l) t ≡ includes l t
unfolding includes sort_lines
includes-sort_lines [] t = refl
includes-sort_lines (x ∷ xs) t =
    includes-insert_line x (sort_lines xs) t ∙ ap (λ b. text_eq x t || b) (includes-sort_lines xs t)

pub includes-without :
    (x : Text) (l : List Text) (t : Text)
    → includes (without x l) t ≡ (not (text_eq x t) && includes l t)
unfolding includes without
includes-without x [] t = ground arith
includes-without x (y ∷ ys) t =
    ground (arith, text_eq_iff x y, text_eq_iff x t, text_eq_iff y t, includes-without x ys t)

pub includes-unique : (l : List Text) (t : Text) → includes (unique l) t ≡ includes l t
unfolding includes unique
includes-unique [] t = refl
includes-unique (x ∷ xs) t = ground (arith, includes-without x (unique xs) t, includes-unique xs t)
