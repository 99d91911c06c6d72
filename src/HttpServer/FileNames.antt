-- ===== src/HttpServer/FileNames.antt =====
-- The names that httpserver/download_file.go gives to downloaded files.
use gobox.Base.{
  ℕ, ◌≡◌, ◌≢◌, ◌↔◌, refl, true, false, ◌&&◌, ◌||◌, [], ◌∷◌, any, All, arith, ◌∙◌, ap, subst,
  Bool-cases, inl, inr,
}
use gobox.Base.Text.{Text, codes, is_empty, text_eq, text_eq_iff}
use gobox.Base.Paths.{is_slash, strip_slashes, last_element, or_slash, base}
use gobox.HttpServer.Download.{
  is_left_out, without_left_out, replaced, or_nothing, sanitize_filename,
}

-- A character that may stand in a name: no slash of either kind, no line break and no zero byte.
abbrev pub IsNameChar : ℕ → Type 0
IsNameChar c = (c ≢ 47) × (c ≢ 92) × (c ≢ 13) × (c ≢ 10) × (c ≢ 0)

-- A name without a separator, and without what would break its header's line; `..` is one.
abbrev pub IsFileName : Text → Type 0
IsFileName s = All IsNameChar s × (s ≢ codes ".")

abbrev IsUnescaped : Text → Type 0
IsUnescaped s = All (λ c. c ≢ 92) s

replaced-IsUnescaped : (s : Text) → IsUnescaped (replaced s)
unfolding replaced
replaced-IsUnescaped [] = tt
replaced-IsUnescaped (c ∷ s) = (ground arith, replaced-IsUnescaped s)

strip_slashes-IsUnescaped : (s : Text) → IsUnescaped s → IsUnescaped (strip_slashes s)
unfolding strip_slashes
strip_slashes-IsUnescaped [] h = tt
strip_slashes-IsUnescaped (c ∷ s) (p, h) =
    elim (Bool-cases (is_empty (strip_slashes s) && is_slash c)) [
      | inl cut ↦ rw (cut) tt
      | inr kept ↦ rw (kept) (p, strip_slashes-IsUnescaped s h)
    ]

any_slash-All : (s : Text) → any is_slash s ≡ false → All (λ c. c ≢ 47) s
any_slash-All [] h = tt
any_slash-All (c ∷ s) h = (ground (arith, h), any_slash-All s (ground (arith, h)))

abbrev IsElement : Text → Type 0
IsElement s = All (λ c. (c ≢ 47) × (c ≢ 92)) s

both : (s : Text) → All (λ c. c ≢ 47) s → IsUnescaped s → IsElement s
both [] h k = tt
both (c ∷ s) (p, h) (q, k) = ((p, q), both s h k)

last_element-IsElement : (s : Text) → IsUnescaped s → IsElement (last_element s)
unfolding last_element
last_element-IsElement [] h = tt
last_element-IsElement (c ∷ s) (p, h) = elim (Bool-cases (any is_slash s)) [
  | inl more ↦ rw (more) (last_element-IsElement s h)
  | inr none_left ↦
      let rest = both s (any_slash-All s none_left) h in
      elim (Bool-cases (is_slash c)) [
        | inl at ↦ rw (none_left, at) rest
        | inr off ↦ rw (none_left, off) ((ground (arith, off), p), rest)
      ]
]

without_left_out-All : (s : Text) → IsElement s → All IsNameChar (without_left_out s)
unfolding without_left_out
without_left_out-All [] h = tt
without_left_out-All (c ∷ s) ((p, q), h) = elim (Bool-cases (is_left_out c)) [
  | inl out ↦ rw (out) (without_left_out-All s h)
  | inr kept ↦ rw (kept) (
    (p, q, ground (arith, kept), ground (arith, kept), ground (arith, kept)),
    without_left_out-All s h,
  )
]

or_nothing-IsFileName : (s : Text) → All IsNameChar s → IsFileName (or_nothing s)
or_nothing-IsFileName s h = elim (Bool-cases (text_eq s (codes ".") || text_eq s (codes "/"))) [
  | inl one ↦ rw (one) (tt, λ e. absurd (cc))
  | inr other ↦ rw (other) (
    h,
    λ e.
        let is : text_eq s (codes ".") ≡ true = (text_eq_iff s (codes ".")).1 e in
        ground (arith, is, other),
  )
]

abbrev named : Text → Text
named s = or_nothing (without_left_out s)

named-IsFileName : (s : Text) → IsElement s → IsFileName (named s)
named-IsFileName s h = or_nothing-IsFileName (without_left_out s) (without_left_out-All s h)

named-or_slash : (s : Text) → IsElement s → IsFileName (named (or_slash s))
unfolding without_left_out text_eq
named-or_slash [] h = (tt, λ e. absurd (cc))
named-or_slash (c ∷ s) h = named-IsFileName (c ∷ s) h

named-base : (s : Text) → IsUnescaped s → IsFileName (named (base s))
unfolding base without_left_out text_eq
named-base [] h = (tt, λ e. absurd (cc))
named-base (c ∷ s) h =
    named-or_slash (last_element (strip_slashes (c ∷ s)))
      (last_element-IsElement (strip_slashes (c ∷ s)) (strip_slashes-IsUnescaped (c ∷ s) h))

pub sanitize_filename-IsFileName : (filename : Text) → IsFileName (sanitize_filename filename)
unfolding sanitize_filename
sanitize_filename-IsFileName filename =
    named-base (replaced filename) (replaced-IsUnescaped filename)

replaced-same : (s : Text) → All IsNameChar s → replaced s ≡ s
unfolding replaced
replaced-same [] h = refl
replaced-same (c ∷ s) ((p, q, r, t, u), h) = ground (arith, q, replaced-same s h)

strip_slashes-same : (s : Text) → All IsNameChar s → strip_slashes s ≡ s
unfolding strip_slashes
strip_slashes-same [] h = refl
strip_slashes-same (c ∷ s) ((p, q, r, t, u), h) = ground (arith, p, strip_slashes-same s h)

any_slash-false : (s : Text) → All IsNameChar s → any is_slash s ≡ false
any_slash-false [] h = refl
any_slash-false (c ∷ s) ((p, q, r, t, u), h) = ground (arith, p, any_slash-false s h)

last_element-same : (s : Text) → All IsNameChar s → last_element s ≡ s
unfolding last_element
last_element-same [] h = refl
last_element-same (c ∷ s) ((p, q, r, t, u), h) = ground (arith, p, any_slash-false s h)

without_left_out-same : (s : Text) → All IsNameChar s → without_left_out s ≡ s
unfolding without_left_out
without_left_out-same [] h = refl
without_left_out-same (c ∷ s) ((p, q, r, t, u), h) =
    ground (arith, r, t, u, without_left_out-same s h)

base-same : (c : ℕ) (s : Text) → All IsNameChar (c ∷ s) → base (c ∷ s) ≡ c ∷ s
unfolding base
base-same c s h = rw (base, strip_slashes-same (c ∷ s) h, last_element-same (c ∷ s) h) refl

or_nothing-same : (c : ℕ) (s : Text) → IsFileName (c ∷ s) → or_nothing (c ∷ s) ≡ c ∷ s
or_nothing-same c s (((p, q, r, t, u), h), no_dot) =
    ground (arith, p, no_dot, text_eq_iff (c ∷ s) (codes "."), text_eq_iff (c ∷ s) (codes "/"))

pub sanitize_filename-same : (s : Text) → IsFileName s → sanitize_filename s ≡ s
unfolding sanitize_filename
sanitize_filename-same [] h = refl
sanitize_filename-same (c ∷ s) (h, no_dot) =
    ap (λ r. named (base r)) (replaced-same (c ∷ s) h)
    ∙ ap named (base-same c s h)
    ∙ ap or_nothing (without_left_out-same (c ∷ s) h)
    ∙ or_nothing-same c s (h, no_dot)

-- sanitizeFilename gives, for any name, one without a slash, a backslash, a line break or a zero byte
-- that is not a dot, and it leaves exactly such names as they are.
pub sanitize_filename_iff :
    (filename : Text)
    → IsFileName (sanitize_filename filename)
      × ((sanitize_filename filename ≡ filename) ↔ IsFileName filename)
sanitize_filename_iff filename = (
  sanitize_filename-IsFileName filename,
  (
    λ e. subst IsFileName e (sanitize_filename-IsFileName filename),
    sanitize_filename-same filename,
  ),
)
