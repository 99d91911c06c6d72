-- ===== src/Pagination/Filters.antt =====
-- pagination/filter.go: conditions, groups and the builder of conditions. `V` is the type of the
-- values that are no pointers.
use gobox.Base.{Bool, Option, none, some, if◌then◌else◌}
use gobox.Base.Text.{Text, codes}

-- A value of type `any`.
pub data Any (V : Type 0) : Type 0 where
  nil_value nil_pointer : Any V
  value pointer : V → Any V

-- `derefVal` of pagination/helper.go
unfoldable pub deref_val : {V : Type 0} → Any V → Any V
deref_val (pointer v) = value v
deref_val nil_pointer = nil_value
deref_val nil_value = nil_value
deref_val (value v) = value v

-- A filter is a condition of a field, an operator and a value, or, where `Group` is set, a group
-- with its logical operator.
mutual
  pub data Filter (V : Type 0) : Type 0 where
    condition : Text → Text → Any V → Filter V
    group : Text → Filters V → Filter V

  pub data Filters (V : Type 0) : Type 0 where
    none_left : Filters V
    next : Filter V → Filters V → Filters V

abbrev pub op_and : Text
op_and = codes "AND"

abbrev pub op_or : Text
op_or = codes "OR"

unfoldable pub snoc : {V : Type 0} → Filters V → Filter V → Filters V
snoc none_left f = next f none_left
snoc (next g fs) f = next g (snoc fs f)

unfoldable pub or_group : {V : Type 0} → Filters V → Filter V
or_group fs = group op_or fs

unfoldable pub and_group : {V : Type 0} → Filters V → Filter V
and_group fs = group op_and fs

-- The builder's methods append to its filters.
unfoldable pub where_ : {V : Type 0} → Filters V → Text → Text → Any V → Filters V
unfolding snoc deref_val
where_ b field op v = snoc b (condition field op (deref_val v))

unfoldable pub where_if : {V : Type 0} → Filters V → Bool → Text → Text → Any V → Filters V
unfolding where_
where_if b cond field op v = if cond then where_ b field op v else b

-- The group is dropped if its builder, which starts empty, adds nothing.
abbrev append_group : {V : Type 0} → Filters V → Text → Filters V → Filters V
append_group b op none_left = b
append_group b op (next f fs) = snoc b (group op (next f fs))

-- A nil `build` is `none`.
unfoldable pub where_group :
    {V : Type 0} → Filters V → Text → Option (Filters V → Filters V) → Filters V
unfolding snoc
where_group b op none = b
where_group b op (some build) = append_group b op (build none_left)

unfoldable pub where_group_if :
    {V : Type 0} → Filters V → Bool → Text → Option (Filters V → Filters V) → Filters V
unfolding where_group
where_group_if b cond op build = if cond then where_group b op build else b

unfoldable pub where_group_or :
    {V : Type 0} → Filters V → Option (Filters V → Filters V) → Filters V
unfolding where_group
where_group_or b build = where_group b op_or build
