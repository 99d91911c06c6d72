-- ===== src/Pagination/Render/Marks.antt =====
-- Each placeholder of a text that pagination/gorm_scope.go renders has its argument.
use gobox.Base.{
  ℕ, suc, ◌+◌, ◌≡◌, refl, List, [], ◌∷◌, ◌++◌, ◌==◌, arith, length, length-append, if◌then◌else◌,
}
use gobox.Base.Text.{Text, codes, join}
use gobox.Pagination.Filters.{Any, Filter, condition, group, Filters, none_left, next}
use gobox.Pagination.Render.{
  Arg, Rendered, condition_expr, grouped, added, separator, filter_expr, group_exprs,
}

-- The number of placeholders in a text.
abbrev pub marks : Text → ℕ
marks [] = 0
marks (c ∷ s) = if c == b'?' then suc (marks s) else marks s

marks-append : (s t : Text) → marks (s ++ t) ≡ marks s + marks t
marks-append [] t = omega arith
marks-append (c ∷ s) t = ground (arith, marks-append s t)

marks-spaced :
    (field op s : Text)
    → marks (field ++ (32 ∷ (op ++ (32 ∷ s)))) ≡ marks field + marks op + marks s
marks-spaced field op s =
    omega (arith, marks-append field (32 ∷ (op ++ (32 ∷ s))), marks-append op (32 ∷ s))

marks-separator : (op : Text) → marks (separator op) ≡ 0
marks-separator op = ground arith

abbrev marks_all : List Text → ℕ
marks_all [] = 0
marks_all (s ∷ ss) = marks s + marks_all ss

marks-join : (sep : Text) (ss : List Text) → marks sep ≡ 0 → marks (join sep ss) ≡ marks_all ss
marks-join sep [] h = refl
marks-join sep (s ∷ []) h = omega arith
marks-join sep (s ∷ t ∷ ss) h = omega (
  arith,
  marks-append s (sep ++ join sep (t ∷ ss)),
  marks-append sep (join sep (t ∷ ss)),
  marks-join sep (t ∷ ss) h,
)

-- No placeholder stands in the fields and the operators.
abbrev mutual
  pub IsUnmarked : {V : Type 0} → Filter V → Type 0
  IsUnmarked (condition field op v) = (marks field ≡ 0) × (marks op ≡ 0)
  IsUnmarked (group op fs) = AreUnmarked fs

  pub AreUnmarked : {V : Type 0} → Filters V → Type 0
  AreUnmarked none_left = Unit
  AreUnmarked (next f fs) = IsUnmarked f × AreUnmarked fs

module _ {V : Type 0} (print : Any V → Text) where
  condition_expr-marks :
      (field op : Text) (v : Any V)
      → marks field ≡ 0
      → marks op ≡ 0
      → marks (condition_expr print field op v).0 ≡ length (condition_expr print field op v).1
  unfolding condition_expr
  condition_expr-marks field op v h k = ground (
    arith,
    marks-append field (32 ∷ codes "IS NULL"),
    marks-append field (32 ∷ codes "IS NOT NULL"),
    marks-spaced field op (codes "(?)"),
    marks-spaced field op (codes "? ESCAPE '!'"),
    marks-spaced field op (codes "?"),
  )

  added-marks :
      (r : Rendered V) (s : List Text × List (Arg V))
      → marks r.0 ≡ length r.1
      → marks_all s.0 ≡ length s.1
      → marks_all (added r s).0 ≡ length (added r s).1
  added-marks ([], a) s h k = k
  added-marks (c ∷ t, a) s h k = omega (arith, length-append a s.1)

  grouped-marks :
      (op : Text) (s : List Text × List (Arg V))
      → marks_all s.0 ≡ length s.1
      → marks (grouped op s).0 ≡ length (grouped op s).1
  grouped-marks op ([], a) h = refl
  grouped-marks op (t ∷ ts, a) h = omega (
    arith,
    marks-append (join (separator op) (t ∷ ts)) (b')' ∷ []),
    marks-join (separator op) (t ∷ ts) (marks-separator op),
  )

  mutual
    unfolding filter_expr group_exprs

    filter_marks :
        (f : Filter V)
        → IsUnmarked f
        → marks (filter_expr print f).0 ≡ length (filter_expr print f).1
    filter_marks (condition field op v) (h, k) = condition_expr-marks field op v h k
    filter_marks (group op fs) h = grouped-marks op (group_exprs print fs) (group_marks fs h)

    group_marks :
        (fs : Filters V)
        → AreUnmarked fs
        → marks_all (group_exprs print fs).0 ≡ length (group_exprs print fs).1
    group_marks none_left h = refl
    group_marks (next f fs) (h, k) =
        added-marks (filter_expr print f) (group_exprs print fs) (filter_marks f h)
          (group_marks fs k)

  -- If fields and operators hold no placeholder, a rendered filter has one argument for each.
  pub filter_expr-marks :
      (f : Filter V) → IsUnmarked f → marks (filter_expr print f).0 ≡ length (filter_expr print f).1
  filter_expr-marks f h = filter_marks f h
