-- ===== src/Pagination/Render/Values.antt =====
-- The SQL text of pagination/gorm_scope.go does not depend on the values.
use mathlib.Core.Path.{ap₂}
use gobox.Base.{◌≡◌, refl, ap, List, [], ◌∷◌, ◌++◌, arith}
use gobox.Base.Text.{Text, join}
use gobox.Pagination.Filters.{Any, Filter, condition, group, Filters, none_left, next}
use gobox.Pagination.Render.{
  Arg, Rendered, condition_expr, grouped, added, separator, filter_expr, group_exprs,
}

-- The filter with other values.
abbrev mutual
  pub map_values : {V : Type 0} → (Any V → Any V) → Filter V → Filter V
  map_values g (condition field op v) = condition field op (g v)
  map_values g (group op fs) = group op (map_all g fs)

  pub map_all : {V : Type 0} → (Any V → Any V) → Filters V → Filters V
  map_all g none_left = none_left
  map_all g (next f fs) = next (map_values g f) (map_all g fs)

module _ {V : Type 0} (print : Any V → Text) (g : Any V → Any V) where
  condition_expr-text :
      (field op : Text) (v : Any V)
      → (condition_expr print field op (g v)).0 ≡ (condition_expr print field op v).0
  unfolding condition_expr
  condition_expr-text field op v = ground arith

  added-text :
      (r r' : Rendered V) (s s' : List Text × List (Arg V))
      → r.0 ≡ r'.0
      → s.0 ≡ s'.0
      → (added r s).0 ≡ (added r' s').0
  added-text ([], a) ([], a') s s' e f = f
  added-text ([], a) (c ∷ t, a') s s' e f = absurd (cc)
  added-text (c ∷ t, a) ([], a') s s' e f = absurd (cc)
  added-text (c ∷ t, a) (c' ∷ t', a') s s' e f = ap₂ ◌∷◌ e f

  grouped-text :
      (op : Text) (s s' : List Text × List (Arg V))
      → s.0 ≡ s'.0
      → (grouped op s).0 ≡ (grouped op s').0
  grouped-text op ([], a) ([], a') e = refl
  grouped-text op ([], a) (t ∷ ts, a') e = absurd (cc)
  grouped-text op (t ∷ ts, a) ([], a') e = absurd (cc)
  grouped-text op (t ∷ ts, a) (t' ∷ ts', a') e =
      ap (λ (x : List Text). b'(' ∷ (join (separator op) x ++ b')' ∷ [])) e

  mutual
    unfolding filter_expr group_exprs

    filter_text : (f : Filter V) → (filter_expr print (map_values g f)).0 ≡ (filter_expr print f).0
    filter_text (condition field op v) = condition_expr-text field op v
    filter_text (group op fs) = grouped-text op _ (group_exprs print fs) (group_text fs)

    group_text : (fs : Filters V) → (group_exprs print (map_all g fs)).0 ≡ (group_exprs print fs).0
    group_text none_left = refl
    group_text (next f fs) =
        added-text _ (filter_expr print f) _ (group_exprs print fs) (filter_text f) (group_text fs)

  -- The SQL text of a filter, with all its groups, is the same whatever values it compares with:
  -- values reach the database as arguments alone.
  pub filter_expr-text :
      (f : Filter V) → (filter_expr print (map_values g f)).0 ≡ (filter_expr print f).0
  filter_expr-text f = filter_text f
