-- ===== src/Pagination/Examples.antt =====
-- Runs of the pagination package.
use gobox.Base.{◌-◌, ◌*◌, ◌≡◌, ◌↔◌, refl, some, [], ◌∷◌, arith, length}
use gobox.Base.Int.{pos}
use gobox.Base.Text.{
  Text, codes, text_eq, split_on, trim_space, fields, fields_from, is_space, trim_left, trim_right,
}
use gobox.Pagination.{offset}
use gobox.Pagination.Pages.{offset-eq}
use gobox.Pagination.Filters.{
  Any, nil_value, value, Filter, condition, group, none_left, next, op_or, deref_val,
}
use gobox.Pagination.Like.{escape_like, like_pattern, Like, Contains, like_pattern_iff}
use gobox.Pagination.Render.{given, pattern_text, condition_expr, filter_expr, group_exprs}
use gobox.Pagination.Render.Values.{map_values, filter_expr-text}
use gobox.Pagination.Render.Marks.{marks, filter_expr-marks}
use gobox.Pagination.Sorts.{asc, desc, parse_sort, upper, is_desc}

abbrev show : Any Text → Text
show (value v) = v
show _ = codes "<nil>"

-- status = ? AND a group, as in the README.
abbrev search_filter : Filter Text
search_filter = group op_or (
    next (condition (codes "name") (codes "ILIKE") (value (codes "50%")))
      (next (condition (codes "document") (codes "=") (value (codes "7"))) none_left))

search_run : filter_expr show search_filter ≡ (
  codes "(name ILIKE ? ESCAPE '!' OR document = ?)",
  pattern_text (codes "%50!%%") ∷ given (value (codes "7")) ∷ [],
)
unfolding filter_expr group_exprs condition_expr text_eq escape_like deref_val
search_run = refl

parse_run :
    parse_sort (codes "name asc, created_at DeSC,,x y z")
    ≡ some (
        record { field = codes "name"; direction = asc }
        ∷ record { field = codes "created_at"; direction = desc }
        ∷ record { field = codes "x"; direction = asc }
        ∷ [])
unfolding parse_sort split_on trim_space trim_left trim_right is_space fields fields_from is_desc
    upper text_eq
parse_run = refl

offset-eq_example : offset (record { number = pos 3; per_page = pos 20 }) ≡ pos ((3 - 1) * 20)
offset-eq_example = offset-eq 3 20 (omega arith) (omega arith) (omega arith)

like_pattern_iff_example :
    Like (like_pattern (codes "50%")) (codes "a50%b") ↔ Contains (codes "50%") (codes "a50%b")
like_pattern_iff_example = like_pattern_iff (codes "50%") (codes "a50%b")

filter_expr-text_example :
    (filter_expr show (map_values (λ v. nil_value) search_filter)).0
    ≡ (filter_expr show search_filter).0
filter_expr-text_example = filter_expr-text show (λ v. nil_value) search_filter

filter_expr-marks_example :
    marks (filter_expr show search_filter).0 ≡ length (filter_expr show search_filter).1
filter_expr-marks_example = filter_expr-marks show search_filter ((refl, refl), ((refl, refl), tt))
