-- ===== src/Logger/Nodes.antt =====
-- The nodes of the tree that `formatError` of logger/formatter.go prints.
use gobox.Base.{
  ℕ, zero, suc, ◌-◌, ◌≡◌, ◌≢◌, refl, true, false, Option, none, some, List, [], ◌∷◌, ◌++◌, length,
  drop, drop-append, ◌==◌, arith, Bool-cases, Option-cases, inl, inr, ◌∙◌, ap, sym, subst,
}
use gobox.Base.Text.{Text, codes, is_empty, trim_space, join}
use mathlib.Core.List.{append_assoc}
use gobox.Logger.Tree.{
  Cause, Styles, extract_error_string, strip_prefix, split_from, onto_first, write_error_tree,
  write_parts, format_error,
}

none_or_some : (o : Option Text) (rest : Text) → o ≡ none → o ≡ some rest → ⊥
none_or_some o rest h k = cc

strip_prefix-some : (sep s rest : Text) → strip_prefix sep s ≡ some rest → s ≡ sep ++ rest
unfolding strip_prefix
strip_prefix-some [] s rest h = cc
strip_prefix-some (p ∷ ps) [] rest h = absurd (cc)
strip_prefix-some (p ∷ ps) (c ∷ s) rest h = elim (Bool-cases (p == c)) [
  | inl same ↦
      let tail : strip_prefix ps s ≡ some rest = rw (← h, strip_prefix, same) refl in
      let head : p ≡ c = ground (arith, same) in
      ap (λ t. c ∷ t) (strip_prefix-some ps s rest tail) ∙ ap (λ d. d ∷ (ps ++ rest)) (sym head)
  | inr other ↦
      absurd (none_or_some (strip_prefix (p ∷ ps) (c ∷ s)) rest (rw (strip_prefix, other) refl) h)
]

-- The parts of a split, of which there is at least one.
abbrev IsJoin : Text → List Text → Text → Type 0
IsJoin sep parts s = (join sep parts ≡ s) × (parts ≢ [])

onto_first-IsJoin :
    (sep : Text) (c : ℕ) (parts : List Text) (s : Text)
    → IsJoin sep parts s
    → IsJoin sep (onto_first c parts) (c ∷ s)
onto_first-IsJoin sep c [] s (h, some_part) = absurd (some_part refl)
onto_first-IsJoin sep c (part ∷ []) s (h, some_part) = (ap (λ t. c ∷ t) h, λ e. absurd (cc))
onto_first-IsJoin sep c (part ∷ next ∷ parts) s (h, some_part) =
    (ap (λ t. c ∷ t) h, λ e. absurd (cc))

empty-IsJoin :
    (sep : Text) (parts : List Text) (s : Text)
    → IsJoin sep parts s
    → IsJoin sep ([] ∷ parts) (sep ++ s)
empty-IsJoin sep [] s (h, some_part) = absurd (some_part refl)
empty-IsJoin sep (part ∷ parts) s (h, some_part) = (ap (λ t. sep ++ t) h, λ e. absurd (cc))

split_from-IsJoin :
    (p : ℕ) (ps : Text) (k : ℕ) (s : Text) → IsJoin (p ∷ ps) (split_from (p ∷ ps) k s) (drop k s)
unfolding split_from
split_from-IsJoin p ps zero [] = (refl, λ e. absurd (cc))
split_from-IsJoin p ps (suc k) [] = (refl, λ e. absurd (cc))
split_from-IsJoin p ps (suc k) (c ∷ s) = split_from-IsJoin p ps k s
split_from-IsJoin p ps zero (c ∷ s) = elim (Option-cases (strip_prefix (p ∷ ps) (c ∷ s))) [
  | inl no_match ↦
      rw (split_from, no_match)
        (onto_first-IsJoin (p ∷ ps) c (split_from (p ∷ ps) zero s) s
          (split_from-IsJoin p ps zero s))
  | inr (rest, is) ↦
      let whole : c ∷ s ≡ (p ∷ ps) ++ rest = strip_prefix-some (p ∷ ps) (c ∷ s) rest is in
      let after : s ≡ ps ++ rest = cc in
      let left : drop (length ps) s ≡ rest =
        ap (λ t. drop (length ps) t) after ∙ drop-append ps rest (length ps) refl in
      let (joined, some_part) = split_from-IsJoin p ps (length ps) s in
      let less : length (p ∷ ps) - 1 ≡ length ps = omega arith in
      rw (split_from, is, less)
        (subst (λ t. IsJoin (p ∷ ps) ([] ∷ split_from (p ∷ ps) (length ps) s) t) (sym whole)
          (empty-IsJoin (p ∷ ps) (split_from (p ∷ ps) (length ps) s) rest
            (joined ∙ left, some_part)))
]

-- The nodes of all parts but the last.
abbrev pub branches : Styles → List Text → Text
branches r [] = []
branches r (part ∷ parts) =
    write_error_tree r (trim_space part ++ codes "]") [] false ++ branches r parts

write_parts-append :
    (r : Styles) (parts : List Text) (last : Text)
    → write_parts r (parts ++ last ∷ [])
      ≡ branches r parts ++ write_error_tree r (trim_space last) [] true
unfolding write_parts
write_parts-append r [] last = refl
write_parts-append r (part ∷ []) last = sym (
    append_assoc (write_error_tree r (trim_space part ++ codes "]") [] false) []
      (write_error_tree r (trim_space last) [] true))
write_parts-append r (part ∷ next ∷ parts) last =
    let first = write_error_tree r (trim_space part ++ codes "]") [] false in
    ap (λ t. first ++ t) (write_parts-append r (next ∷ parts) last)
    ∙ sym (
        append_assoc first (branches r (next ∷ parts))
          (write_error_tree r (trim_space last) [] true))

init_last :
    (parts : List Text)
    → parts ≢ []
    → (init : List Text) × (last : Text) × (parts ≡ init ++ last ∷ [])
init_last [] h = absurd (h refl)
init_last (part ∷ []) h = ([], part, refl)
init_last (part ∷ next ∷ parts) h =
    let (init, last, is) = init_last (next ∷ parts) (λ e. absurd (cc)) in
    (part ∷ init, last, ap (λ ps. part ∷ ps) is)

-- formatError prints an error whose text is not empty as a tree of parts that make up the text when
-- they are joined by `]: `: each part but the last is a branch with its bracket closed, and the last
-- part, which is always there, is the corner.
pub format_error_parts :
    (r : Styles) (i : Cause)
    → is_empty (extract_error_string i) ≡ false
    → (init : List Text) × (last : Text) × (join (codes "]: ") (init ++ last ∷ [])
        ≡ extract_error_string i)
      × (format_error r i ≡ branches r init ++ write_error_tree r (trim_space last) [] true)
unfolding format_error
format_error_parts r i h =
    let (joined, some_part) = split_from-IsJoin 93 (codes ": ") 0 (extract_error_string i) in
    let (init, last, is) =
      init_last (split_from (codes "]: ") 0 (extract_error_string i)) some_part in
    (
      init,
      last,
      ap (join (codes "]: ")) (sym is) ∙ joined,
      rw (format_error, h, is) (write_parts-append r init last),
    )
