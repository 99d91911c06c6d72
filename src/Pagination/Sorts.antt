-- ===== src/Pagination/Sorts.antt =====
-- The sorts of pagination/filter.go and pagination/gorm_scope.go.
pub mod Parsing
use gobox.Base.{
  ℕ, ◌-◌, Bool, true, false, ◌&&◌, ◌||◌, not, Option, none, some, List, [], ◌∷◌, ◌++◌, map, ◌==◌,
  leb, if◌then◌else◌,
}
use gobox.Base.Text.{Text, codes, text_eq, is_empty, split_on, trim_space, fields}
use gobox.Base.Int.{ℤ}
use gobox.Pagination.{Page, normalize, offset}
use gobox.Pagination.Filters.{Any, Filters}
use gobox.Pagination.Render.{Call, count_call, order_call, limit_call, offset_call, apply_filters}

abbrev pub asc : Text
asc = codes "ASC"

abbrev pub desc : Text
desc = codes "DESC"

pub record Sort : Type 0 where
  pub field : Text
  pub direction : Text

-- A query with its page, filters and sorts.
pub record Query (V : Type 0) : Type 0 where
  pub page : Page
  pub filters : Filters V
  pub sorts : List Sort

unfoldable pub new_query : {V : Type 0} → Page → Filters V → List Sort → Query V
unfolding normalize
new_query page filters sorts = record { page = normalize page; filters = filters; sorts = sorts }

-- `OrderBy` of the builder
unfoldable pub order_by : List Sort → Text → Text → List Sort
order_by b field dir = b ++ record { field = field; direction = dir } ∷ []

-- unicode.ToUpper, for all characters that it maps to A, C, D, E or S; 0x17f is a long s.
unfoldable pub upper : ℕ → ℕ
upper c = if leb b'a' c && leb c b'z' then c - 32 else if c == 0x17f then b'S' else c

-- strings.EqualFold(s, "desc")
unfoldable pub is_desc : Text → Bool
unfolding upper
is_desc s = text_eq (map upper s) desc

-- The direction that a part's tokens give; the first token, which the source reads without a
-- test, is the field.
abbrev pub sort_of : List Text → Option Sort
sort_of [] = none
sort_of (field ∷ []) = some (record { field = field; direction = asc })
sort_of (field ∷ dir ∷ []) =
    some (record { field = field; direction = if is_desc dir then desc else asc })
sort_of (field ∷ dir ∷ more ∷ rest) = some (record { field = field; direction = asc })

-- A fault of the first part, or the sort before the others.
abbrev pub cons_sort : Option Sort → Option (List Sort) → Option (List Sort)
cons_sort none rest = none
cons_sort (some s) none = none
cons_sort (some s) (some rest) = some (s ∷ rest)

-- The loop of `ParseSort` over the parts; `none` is an index out of range.
unfoldable pub parse_parts : List Text → Option (List Sort)
parse_parts [] = some []
parse_parts (raw ∷ parts) =
    let part = trim_space raw in
    let rest = parse_parts parts in
    let taken = cons_sort (sort_of (fields part)) rest in if is_empty part then rest else taken

unfoldable pub parse_sort : Text → Option (List Sort)
unfolding parse_parts
parse_sort raw = parse_parts (split_on b',' raw)

-- The direction that `applySorts` renders.
unfoldable pub safe_direction : Text → Text
safe_direction dir =
    let up = map upper dir in if not (text_eq up asc) && not (text_eq up desc) then asc else up

unfoldable pub apply_sorts : {V : Type 0} → List Sort → List (Call V)
unfolding safe_direction
apply_sorts [] = []
apply_sorts (s ∷ sorts) =
    order_call (s.field ++ (32 ∷ safe_direction s.direction)) ∷ apply_sorts sorts

-- `Scope`: the count stands between the filters and the sorts.
unfoldable pub scope : {V : Type 0} → (Any V → Text) → Query V → List (Call V)
unfolding apply_filters apply_sorts offset
scope print q =
    apply_filters print q.filters
    ++ (count_call
        ∷ (apply_sorts q.sorts ++ (limit_call q.page.per_page ∷ offset_call (offset q.page) ∷ [])))

-- `FilterScope`
unfoldable pub filter_scope : {V : Type 0} → (Any V → Text) → Filters V → List (Call V)
unfolding apply_filters
filter_scope print filters = apply_filters print filters
