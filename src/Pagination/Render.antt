-- ===== src/Pagination/Render.antt =====
-- pagination/gorm_scope.go: conditions as SQL text with placeholders, and the calls that a scope
-- makes on the query builder. `print` is fmt.Sprintf("%v", …) of a value.
pub mod Values
pub mod Marks
use gobox.Base.{
  ℕ, Bool, true, false, ◌||◌, Option, none, some, List, [], ◌∷◌, ◌++◌, if◌then◌else◌, ◌==◌,
}
use gobox.Base.Text.{Text, codes, text_eq, is_empty, join}
use gobox.Base.Int.{ℤ}
use gobox.Pagination.{Page, offset}
use gobox.Pagination.Filters.{
  Any, nil_value, nil_pointer, value, pointer, deref_val, Filter, condition, group, Filters,
  none_left, next, op_and, op_or,
}
use gobox.Pagination.Like.{like_pattern}

-- What a placeholder stands for: a value as it is given, or the text of a LIKE pattern.
pub data Arg (V : Type 0) : Type 0 where
  given : Any V → Arg V
  pattern_text : Text → Arg V

abbrev pub Rendered : Type 0 → Type 0
Rendered V = Text × List (Arg V)

-- LikeEscapeClause
abbrev pub like_escape_clause : Text
like_escape_clause = codes "ESCAPE '!'"

abbrev spaced : Text → Text → Text
spaced a b = a ++ (32 ∷ b)

-- `filterExpr` of a condition
unfoldable pub condition_expr : {V : Type 0} → (Any V → Text) → Text → Text → Any V → Rendered V
condition_expr print field op v =
    if text_eq op (codes "IS NULL")
    then (spaced field (codes "IS NULL"), [])
    else if text_eq op (codes "IS NOT NULL")
    then (spaced field (codes "IS NOT NULL"), [])
    else if text_eq op (codes "IN") || text_eq op (codes "NOT IN")
    then (spaced field (spaced op (codes "(?)")), given v ∷ [])
    else if text_eq op (codes "LIKE") || text_eq op (codes "ILIKE")
    then (
      spaced field (spaced op (spaced (codes "?") like_escape_clause)),
      pattern_text (like_pattern (print (deref_val v))) ∷ [],
    )
    else (spaced field (spaced op (codes "?")), given v ∷ [])

-- The operator between the conditions of a group.
abbrev separator : Text → Text
separator op = if text_eq op op_or then codes " OR " else codes " AND "

-- The end of `groupExpr`
abbrev grouped : {V : Type 0} → Text → List Text × List (Arg V) → Rendered V
grouped op ([], args) = ([], [])
grouped op (e ∷ es, args) = (b'(' ∷ (join (separator op) (e ∷ es) ++ b')' ∷ []), args)

-- One round of the loop in `groupExpr`; an empty expression is left out.
abbrev pub added : {V : Type 0} → Rendered V → List Text × List (Arg V) → List Text × List (Arg V)
added ([], args) (es, more) = (es, more)
added (c ∷ e, args) (es, more) = ((c ∷ e) ∷ es, args ++ more)

unfoldable mutual
  pub filter_expr : {V : Type 0} → (Any V → Text) → Filter V → Rendered V
  filter_expr print (condition field op v) = condition_expr print field op v
  filter_expr print (group op fs) = grouped op (group_exprs print fs)

  pub group_exprs : {V : Type 0} → (Any V → Text) → Filters V → List Text × List (Arg V)
  group_exprs print none_left = ([], [])
  group_exprs print (next f fs) = added (filter_expr print f) (group_exprs print fs)

-- A call on the query builder.
pub data Call (V : Type 0) : Type 0 where
  where_call : Text → List (Arg V) → Call V
  count_call : Call V
  order_call : Text → Call V
  limit_call offset_call : ℤ → Call V

abbrev where_calls : {V : Type 0} → Rendered V → List (Call V) → List (Call V)
where_calls ([], args) calls = calls
where_calls (c ∷ e, args) calls = where_call (c ∷ e) args ∷ calls

unfoldable pub apply_filters : {V : Type 0} → (Any V → Text) → Filters V → List (Call V)
apply_filters print none_left = []
apply_filters print (next f fs) = where_calls (filter_expr print f) (apply_filters print fs)
