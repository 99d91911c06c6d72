-- ===== src/Pagination/Sorts/Parsing.antt =====
-- `ParseSort` of pagination/filter.go and the directions of pagination/gorm_scope.go.
use gobox.Base.{
  ℕ, ◌≡◌, ◌≢◌, refl, ◌⊎◌, inl, inr, false, Option, some, List, [], ◌∷◌, ◌++◌, arith, All,
  Bool-cases, map,
}
use mathlib.Core.List.{reverse, reverse-cons}
use gobox.Base.Text.{
  Text, text_eq_iff, is_empty, is_space, split_on, trim_left, trim_right, trim_space, fields,
  fields_from, push_field,
}
use gobox.Pagination.Sorts.{
  Sort, asc, desc, upper, sort_of, cons_sort, parse_parts, parse_sort, safe_direction,
}

-- A rendered direction is ASC or DESC, whatever text the sort holds.
safe_direction_cases : (dir : Text) → (safe_direction dir ≡ asc) ⊎ (safe_direction dir ≡ desc)
unfolding safe_direction
safe_direction_cases dir =
    ground (arith, text_eq_iff (map upper dir) asc, text_eq_iff (map upper dir) desc)

-- A text that is empty or begins with a character that is no space.
abbrev IsTrimmed : Text → Type 0
IsTrimmed [] = Unit
IsTrimmed (c ∷ s) = is_space c ≡ false

trim_left-IsTrimmed : (s : Text) → IsTrimmed (trim_left s)
unfolding trim_left
trim_left-IsTrimmed [] = tt
trim_left-IsTrimmed (c ∷ s) = elim (Bool-cases (is_space c)) [
  | inl h ↦ rw (h, trim_left) (trim_left-IsTrimmed s)
  | inr h ↦ rw (h, trim_left) h
]

trim_space-IsTrimmed : (s : Text) → IsTrimmed (trim_space s)
unfolding trim_space
trim_space-IsTrimmed s = trim_left-IsTrimmed (trim_right s)

push_field-snoc : (xs : Text) (c : ℕ) (fs : List Text) → push_field (xs ++ c ∷ []) fs ≢ []
push_field-snoc [] c fs e = cc
push_field-snoc (x ∷ xs) c fs e = cc

push_field-ne_nil : (c : ℕ) (cur : Text) (fs : List Text) → push_field (reverse (c ∷ cur)) fs ≢ []
push_field-ne_nil c cur fs e = push_field-snoc (reverse cur) c fs (rw (reverse-cons c cur) at e)

fields_from-ne_nil : (c : ℕ) (cur s : Text) → fields_from (c ∷ cur) s ≢ []
unfolding fields_from
fields_from-ne_nil c cur [] = push_field-ne_nil c cur []
fields_from-ne_nil c cur (d ∷ s) = elim (Bool-cases (is_space d)) [
  | inl h ↦ rw (h, fields_from) (push_field-ne_nil c cur _)
  | inr h ↦ rw (h, fields_from) (fields_from-ne_nil d (c ∷ cur) s)
]

fields-ne_nil : (s : Text) → IsTrimmed s → is_empty s ≡ false → fields s ≢ []
unfolding fields fields_from
fields-ne_nil [] h e = absurd (cc)
fields-ne_nil (c ∷ s) h e = rw (h, fields_from) (fields_from-ne_nil c [] s)

-- The directions of parsed sorts.
abbrev pub IsDirected : Sort → Type 0
IsDirected s = (s.direction ≡ asc) ⊎ (s.direction ≡ desc)

abbrev Parses : Option (List Sort) → Type 0
Parses r = (sorts : List Sort) × (r ≡ some sorts) × All IsDirected sorts

cons_sort-Parses :
    (tokens : List Text) (r : Option (List Sort))
    → tokens ≢ []
    → Parses r
    → Parses (cons_sort (sort_of tokens) r)
cons_sort-Parses [] r h p = absurd (h refl)
cons_sort-Parses (f ∷ []) r h (sorts, e, d) = rw e (_, refl, (inl refl, d))
cons_sort-Parses (f ∷ g ∷ []) r h (sorts, e, d) = rw e (_, refl, (ground arith, d))
cons_sort-Parses (f ∷ g ∷ k ∷ rest) r h (sorts, e, d) = rw e (_, refl, (inl refl, d))

parse_parts-Parses : (parts : List Text) → Parses (parse_parts parts)
unfolding parse_parts
parse_parts-Parses [] = ([], refl, tt)
parse_parts-Parses (raw ∷ parts) = elim (Bool-cases (is_empty (trim_space raw))) [
  | inl h ↦ rw (h, parse_parts) (parse_parts-Parses parts)
  | inr h ↦
      rw (h, parse_parts)
        (cons_sort-Parses (fields (trim_space raw)) _
          (fields-ne_nil (trim_space raw) (trim_space-IsTrimmed raw) h) (parse_parts-Parses parts))
]

-- `ParseSort` never reads past the tokens of a part: on every text it gives sorts, and each of
-- them is ascending or descending.
parse_sort_total :
    (raw : Text) → (sorts : List Sort) × (parse_sort raw ≡ some sorts) × All IsDirected sorts
unfolding parse_sort
parse_sort_total raw = parse_parts-Parses (split_on b',' raw)
