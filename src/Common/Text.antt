-- ===== src/Common/Text.antt =====
-- Python's `str` as a list of code points, with the methods that the repository calls.
pub mod Strip
use Prim.Native.Char.{code}
use Prim.Native.String.{String}
use mathlib.Core.List.{reverse}
use github_delivery_intellig.Common.{
  ℕ, ◌+◌, Bool, true, false, not, ◌&&◌, ◌||◌, List, [], ◌∷◌, leb, ◌==◌, if◌then◌else◌, all, Eq,
  nat_eq, list_beq, list_beq_iff, ◌≡◌, refl, map, ◌++◌, zero, suc, ◌-◌, length, Option, none, some,
}

pub record Text : Type 0 where
  pub points : List ℕ

unfoldable pub text_beq : Text → Text → Bool
text_beq s t = list_beq s.points t.points

pub text_beq_iff : (s t : Text) → ((text_beq s t ≡ true) → s ≡ t) × (s ≡ t → text_beq s t ≡ true)
unfolding text_beq
text_beq_iff s t = (
  λ h. let p : s.points ≡ t.points = (list_beq_iff s.points t.points).0 h in cc,
  λ p. rw p ((list_beq_iff t.points t.points).1 refl),
)

instance abbrev pub text_eq : Eq Text
text_eq = record { beq = text_beq; beq_iff = text_beq_iff }

codes : String → List ℕ
codes String.[] = []
codes (String.◌∷◌ c s) = code c ∷ codes s

-- A text literal.
unfoldable pub text : String → Text
unfolding codes
text s = record { points = codes s }

-- `str.isspace`, one code point at a time.
unfoldable pub is_space : ℕ → Bool
is_space c =
    (leb 9 c && leb c 13)
    || (leb 28 c && leb c 32)
    || c == 0x85
    || c == 0xa0
    || c == 0x1680
    || (leb 0x2000 c && leb c 0x200a)
    || c == 0x2028
    || c == 0x2029
    || c == 0x202f
    || c == 0x205f
    || c == 0x3000

-- The white space of Unicode, which Rust's `trim` and the `\s` of its regular expressions stand for:
-- without the four separators U+001C to U+001F.
unfoldable pub is_white : ℕ → Bool
unfolding is_space
is_white c = is_space c && not (leb 28 c && leb c 31)

drop_spaces : (ℕ → Bool) → List ℕ → List ℕ
drop_spaces space [] = []
drop_spaces space (c ∷ cs) = if space c then drop_spaces space cs else c ∷ cs

strip_points : (ℕ → Bool) → List ℕ → List ℕ
unfolding drop_spaces
strip_points space cs = reverse (drop_spaces space (reverse (drop_spaces space cs)))

-- `value.strip()`
unfoldable pub strip : Text → Text
unfolding strip_points is_space
strip s = record { points = strip_points is_space s.points }

-- What pydantic makes of a text under `strip_whitespace`.
unfoldable pub trim : Text → Text
unfolding strip_points is_white
trim s = record { points = strip_points is_white s.points }

-- `not value`
unfoldable pub is_empty : Text → Bool
is_empty s = elim s.points [ [] ↦ true | _ ∷ _ ↦ false ]

-- `not value.strip()`
unfoldable pub is_blank : Text → Bool
unfolding is_space
is_blank s = all is_space s.points

-- `value.lower()`; only the ASCII letters change, which is all that header names, status words and
-- the searched phrases hold.
unfoldable pub lower : Text → Text
lower s = record { points = map (λ c. if leb 65 c && leb c 90 then c + 32 else c) s.points }

has_prefix : List ℕ → List ℕ → Bool
has_prefix [] t = true
has_prefix (c ∷ cs) [] = false
has_prefix (c ∷ cs) (d ∷ ds) = c == d && has_prefix cs ds

contains_points : List ℕ → List ℕ → Bool
unfolding has_prefix
contains_points s [] = has_prefix s []
contains_points s (d ∷ ds) = has_prefix s (d ∷ ds) || contains_points s ds

-- `part in value`
unfoldable pub is_within : Text → Text → Bool
unfolding contains_points
is_within part value = contains_points part.points value.points

-- The parts of an f-string, one after another.
unfoldable pub joined : List Text → Text
joined [] = record { points = [] }
joined (part ∷ parts) = let rest = joined parts in record { points = part.points ++ rest.points }

-- The scan of `replace`, with so many points left of an occurrence.
replace_points : List ℕ → List ℕ → ℕ → List ℕ → List ℕ
unfolding has_prefix
replace_points old new skip [] = []
replace_points old new (suc skip) (c ∷ cs) = replace_points old new skip cs
replace_points old new zero (c ∷ cs) =
    let after = replace_points old new (length old - 1) cs in
    let next = replace_points old new zero cs in
    if has_prefix old (c ∷ cs) then new ++ after else c ∷ next

-- `value.replace(old, new)`, for an `old` that is not empty.
unfoldable pub replace : Text → Text → Text → Text
unfolding replace_points
replace value old new = record { points = replace_points old.points new.points zero value.points }

cons_first : ℕ → Option (List ℕ × List ℕ) → Option (List ℕ × List ℕ)
cons_first c none = none
cons_first c (some (front, back)) = some (c ∷ front, back)

split_points : ℕ → List ℕ → Option (List ℕ × List ℕ)
unfolding cons_first
split_points separator [] = none
split_points separator (c ∷ cs) =
    let later = cons_first c (split_points separator cs) in
    if c == separator then some ([], cs) else later

-- `value.split(separator, maxsplit=1)` for a separator of one point: nothing where it is missing.
unfoldable pub split_once : ℕ → Text → Option (Text × Text)
unfolding split_points
split_once separator value = elim (split_points separator value.points) [
  | none ↦ none
  | some (front, back) ↦ some (record { points = front }, record { points = back })
]
