-- ===== src/Common/Text/Strip.antt =====
-- What `strip` and `trim` give is stripped.
use mathlib.Core.List.{reverse, reverse-append, reverse-cons, reverse-reverse}
use github_delivery_intellig.Common.{
  ◌≡◌, refl, ap, inl, inr, ℕ, Bool, false, List, [], ◌∷◌, ◌++◌, arith, Bool-cases,
}
use github_delivery_intellig.Common.Text.{Text, is_white, drop_spaces, strip_points, trim}

module _ (space : ℕ → Bool) where
  -- A list that begins with no space.
  abbrev IsTrimmed : List ℕ → Type 0
  IsTrimmed [] = Unit
  IsTrimmed (c ∷ cs) = space c ≡ false

  drop_spaces-IsTrimmed : (cs : List ℕ) → IsTrimmed (drop_spaces space cs)
  unfolding drop_spaces
  drop_spaces-IsTrimmed [] = tt
  drop_spaces-IsTrimmed (c ∷ cs) = elim (Bool-cases (space c)) [
    | inl gap ↦ rw gap (drop_spaces-IsTrimmed cs)
    | inr other ↦ rw other other
  ]

  drop_spaces_of_IsTrimmed : (cs : List ℕ) → IsTrimmed cs → drop_spaces space cs ≡ cs
  unfolding drop_spaces
  drop_spaces_of_IsTrimmed [] h = refl
  drop_spaces_of_IsTrimmed (c ∷ cs) h = rw h refl

  drop_spaces-snoc :
      (cs : List ℕ) (c : ℕ)
      → space c ≡ false
      → drop_spaces space (cs ++ c ∷ []) ≡ drop_spaces space cs ++ c ∷ []
  unfolding drop_spaces
  drop_spaces-snoc [] c h = rw h refl
  drop_spaces-snoc (d ∷ ds) c h = ground (arith, drop_spaces-snoc ds c h)

  -- Spaces dropped at the end leave the beginning as it was.
  trim_end : List ℕ → List ℕ
  trim_end cs = reverse (drop_spaces space (reverse cs))

  trim_end-cons : (c : ℕ) (cs : List ℕ) → space c ≡ false → trim_end (c ∷ cs) ≡ c ∷ trim_end cs
  unfolding trim_end
  trim_end-cons c cs h = rw (reverse-cons c cs) (
      rw (drop_spaces-snoc (reverse cs) c h)
        (reverse-append (drop_spaces space (reverse cs)) (c ∷ [])))

  trim_end-IsTrimmed : (cs : List ℕ) → IsTrimmed cs → IsTrimmed (trim_end cs)
  unfolding trim_end drop_spaces
  trim_end-IsTrimmed [] h = tt
  trim_end-IsTrimmed (c ∷ cs) h = rw (trim_end-cons c cs h) h

  trim_end-trim_end : (cs : List ℕ) → trim_end (trim_end cs) ≡ trim_end cs
  unfolding trim_end
  trim_end-trim_end cs = rw (reverse-reverse (drop_spaces space (reverse cs))) (
      ap reverse (
        drop_spaces_of_IsTrimmed (drop_spaces space (reverse cs))
          (drop_spaces-IsTrimmed (reverse cs))))

  strip_points-eq : (cs : List ℕ) → strip_points space cs ≡ trim_end (drop_spaces space cs)
  unfolding strip_points trim_end
  strip_points-eq cs = refl

  strip_points-strip_points :
      (cs : List ℕ) → strip_points space (strip_points space cs) ≡ strip_points space cs
  strip_points-strip_points cs =
      let core = drop_spaces space cs in
      let trimmed : drop_spaces space (trim_end core) ≡ trim_end core =
        drop_spaces_of_IsTrimmed (trim_end core)
          (trim_end-IsTrimmed core (drop_spaces-IsTrimmed cs)) in
      rw (strip_points-eq (strip_points space cs))
        (rw (strip_points-eq cs) (rw trimmed (trim_end-trim_end core)))

pub trim-trim : (s : Text) → trim (trim s) ≡ trim s
unfolding trim
trim-trim s =
    let same : (trim (trim s)).points ≡ (trim s).points =
      strip_points-strip_points is_white s.points in
    cc
