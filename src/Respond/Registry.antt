-- ===== src/Respond/Registry.antt =====
-- The registry of httpserver/respond/error_resolver.go: what stays true of it.
use mathlib.Core.List.{append-nil, append_assoc}
use gobox.Base.{
  ℕ, ◌≡◌, ap, ◌≤◌, ◌⊎◌, inl, inr, refl, Bool, true, false, Option, none, some, List, [], ◌∷◌, ◌++◌,
  arith, All, All-append, Bool-cases, Option-cases,
}
use gobox.Base.Text.{is_empty}
use gobox.Base.Errors.{Error}
use gobox.Respond.{
  Err, ApiError, ErrorResolver, validate, api_error, normalized, is_err, is_aliased, add_entries,
  lookup_entries, lookup_err, resolve_err,
}

-- An entry that can be sent: a status from 100 to 599, a code and a message.
pub record IsRenderable {D : Type 0} (e : Err D) : Type 0 where
  pub low : 100 ≤ e.status
  pub high : e.status ≤ 599
  pub code : is_empty e.code ≡ false
  pub message : is_empty e.message ≡ false

-- No entry is equivalent to one before it.
abbrev pub AreDistinct : {D : Type 0} → List (Err D) → List (Err D) → Type 0
AreDistinct before [] = Unit
AreDistinct before (e ∷ entries) =
    (is_aliased before e ≡ false) × AreDistinct (before ++ e ∷ []) entries

abbrev pub IsRegistry : {D : Type 0} → List (Err D) → Type 0
IsRegistry entries = All IsRenderable entries × AreDistinct [] entries

normalized-IsRenderable : {D : Type 0} (e : Err D) → validate e ≡ true → IsRenderable (normalized e)
unfolding validate normalized
normalized-IsRenderable e h = ground (arith, h)

is_aliased-normalized :
    {D : Type 0} (entries : List (Err D)) (e : Err D)
    → is_aliased entries (normalized e) ≡ is_aliased entries e
unfolding is_aliased normalized
is_aliased-normalized [] e = refl
is_aliased-normalized (x ∷ entries) e = rw (is_aliased-normalized entries e) refl

AreDistinct-append :
    {D : Type 0} (before entries : List (Err D)) (e : Err D)
    → AreDistinct before entries
    → is_aliased (before ++ entries) e ≡ false
    → AreDistinct before (entries ++ e ∷ [])
AreDistinct-append before [] e h fresh = (rw (append-nil before) at fresh, tt)
AreDistinct-append before (x ∷ entries) e (h, g) fresh = (
  h,
  AreDistinct-append (before ++ x ∷ []) entries e g
      (rw (append_assoc before (x ∷ []) entries) fresh),
)

-- Adding entries, whether all are added or one is refused, leaves a registry: every entry can be
-- sent, and none is equivalent to one before it.
add_entries-IsRegistry :
    {D : Type 0} (entries more : List (Err D))
    → IsRegistry entries
    → IsRegistry (add_entries entries more).0
unfolding add_entries
add_entries-IsRegistry entries [] h = h
add_entries-IsRegistry entries (e ∷ more) h = elim (Bool-cases (validate e)) [
  | inr invalid ↦ rw (invalid, add_entries) h
  | inl valid ↦ elim (Bool-cases (is_aliased entries e)) [
    | inl taken ↦ rw (valid, taken, add_entries) h
    | inr fresh ↦
        rw (valid, fresh, add_entries)
          (add_entries-IsRegistry (entries ++ normalized e ∷ []) more (
            All-append IsRenderable entries (normalized e ∷ []) h.0
                (normalized-IsRenderable e valid, tt),
            AreDistinct-append [] entries (normalized e) h.1
                (rw (is_aliased-normalized entries e) fresh),
          ))
  ]
]

-- The first entry that matches.
abbrev pub First : {D : Type 0} → List (Err D) → Error → Option (Err D) → Type 0
First entries e none = All (λ x. is_err x e ≡ false) entries
First {D} entries e (some x) =
    (before : List (Err D)) × (after : List (Err D)) × (entries ≡ before ++ x ∷ after)
    × All (λ y. is_err y e ≡ false) before
    × (is_err x e ≡ true)

First-cons :
    {D : Type 0} (x : Err D) (entries : List (Err D)) (e : Error) (o : Option (Err D))
    → is_err x e ≡ false
    → First entries e o
    → First (x ∷ entries) e o
First-cons x entries e none no_ h = (no_, h)
First-cons x entries e (some y) no_ (before, after, is, others, yes_) =
    (x ∷ before, after, ap (λ l. x ∷ l) is, (no_, others), yes_)

lookup_entries-First :
    {D : Type 0} (entries : List (Err D)) (e : Error) → First entries e (lookup_entries entries e)
unfolding lookup_entries
lookup_entries-First [] e = tt
lookup_entries-First (x ∷ entries) e = elim (Bool-cases (is_err x e)) [
  | inl yes_ ↦ rw (yes_, lookup_entries) ([], entries, refl, tt, yes_)
  | inr no_ ↦
      rw (no_, lookup_entries)
        (First-cons x entries e (lookup_entries entries e) no_ (lookup_entries-First entries e))
]

-- An entry and what is sent for it.
abbrev Sends : {D : Type 0} → Err D → ApiError D × ℕ × Bool → Type 0
Sends entry (api, status, known) =
    (api ≡ api_error entry) × (status ≡ entry.status) × IsRenderable entry

All-middle :
    {D : Type 0} (before after : List (Err D)) (x : Err D)
    → All IsRenderable (before ++ x ∷ after)
    → IsRenderable x
All-middle [] after x h = h.0
All-middle (y ∷ before) after x h = All-middle before after x h.1

-- What `Resolve` is given: the first entry that the error matches, or the fallback if none does.
abbrev pub Resolves : {D : Type 0} → ErrorResolver D → Error → ApiError D × ℕ × Bool → Type 0
Resolves {D} r e answer =
    ((answer.2 ≡ true) × ((x : Err D) × First r.entries e (some x) × Sends x answer))
    ⊎ ((answer.2 ≡ false) × First r.entries e none × Sends r.fallback answer)

-- If all entries and the fallback can be sent, Resolve of an error gives such a response: that of the first entry, in the order of
-- registration, whose sentinel the error matches, with `true`, or else the fallback, with `false`.
pub resolve_err-Resolves :
    {D : Type 0} (r : ErrorResolver D) (e : Error)
    → All IsRenderable r.entries
    → IsRenderable r.fallback
    → Resolves r e (resolve_err r (some e))
unfolding resolve_err lookup_err
resolve_err-Resolves r e h f = elim (Option-cases (lookup_entries r.entries e)) [
  | inl none_ ↦
      rw (none_, resolve_err, lookup_err)
        (inr (refl, (rw (none_) at (lookup_entries-First r.entries e)), (refl, refl, f)))
  | inr (x, some_) ↦
      let (before, after, is, others, yes_) = rw (some_) at (lookup_entries-First r.entries e) in
      rw (some_, resolve_err, lookup_err)
        (inl (
          refl,
          (
            x,
            (before, after, is, others, yes_),
            (refl, refl, All-middle before after x (rw (← is) h)),
          ),
        ))
]
