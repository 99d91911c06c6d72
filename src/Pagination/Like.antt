-- ===== src/Pagination/Like.antt =====
-- The escaping of LIKE patterns in pagination/helper.go.
use mathlib.Core.List.{append-nil}
use gobox.Base.{
  ℕ, ap, sym, ◌∙◌, inl, inr, false, Bool-cases, ◌↔◌, ◌≡◌, refl, ◌≢◌, [], ◌∷◌, ◌++◌, Bool, ◌||◌,
  ◌==◌, if◌then◌else◌, arith,
}
use gobox.Base.Text.{Text}

-- LikeEscapeChar
abbrev pub escape_char : ℕ
escape_char = b'!'

-- A character with a meaning in a pattern.
abbrev is_special : ℕ → Bool
is_special c = c == b'!' || c == b'%' || c == b'_'

-- `EscapeLike` of a value's text
unfoldable pub escape_like : Text → Text
escape_like [] = []
escape_like (c ∷ s) = if is_special c then escape_char ∷ c ∷ escape_like s else c ∷ escape_like s

-- The pattern of a LIKE or ILIKE condition.
abbrev pub like_pattern : Text → Text
like_pattern s = b'%' ∷ (escape_like s ++ b'%' ∷ [])

-- The patterns of SQL with an escape character: `Like p t` says that t matches p.
pub data Like : Text → Text → Type 0 where
  done : {p t : Text} → p ≡ [] → t ≡ [] → Like p t
  many : {p t : Text} (q s r : Text) → p ≡ b'%' ∷ q → t ≡ s ++ r → Like q r → Like p t
  one : {p t : Text} (q r : Text) (c : ℕ) → p ≡ b'_' ∷ q → t ≡ c ∷ r → Like q r → Like p t
  escaped :
      {p t : Text} (q r : Text) (c : ℕ) → p ≡ escape_char ∷ c ∷ q → t ≡ c ∷ r → Like q r → Like p t
  plain :
      {p t : Text} (q r : Text) (c : ℕ)
      → c ≢ b'%'
      → c ≢ b'_'
      → c ≢ escape_char
      → p ≡ c ∷ q
      → t ≡ c ∷ r
      → Like q r
      → Like p t

tail_eq : {c d : ℕ} {p q : Text} → c ∷ p ≡ d ∷ q → p ≡ q
tail_eq e = (cc)

head_eq : {c d : ℕ} {p q : Text} → c ∷ p ≡ d ∷ q → c ≡ d
head_eq e = (cc)

-- An escaped character takes exactly that character.
special_head :
    (c : ℕ) (p t : Text) → Like (escape_char ∷ c ∷ p) t → (r : Text) × (t ≡ c ∷ r) × Like p r
special_head c p t (done e f) = absurd (cc)
special_head c p t (many q u r e f l) = absurd (omega (arith, head_eq e))
special_head c p t (one q r d e f l) = absurd (omega (arith, head_eq e))
special_head c p t (escaped q r d e f l) =
    let rest = tail_eq e in (r, f ∙ ap (λ x. x ∷ r) (sym (head_eq rest)), rw (tail_eq rest) l)
special_head c p t (plain q r d n₁ n₂ n₃ e f l) = absurd (n₃ (sym (head_eq e)))

-- So does a character with no meaning.
plain_head :
    (c : ℕ) (p t : Text)
    → is_special c ≡ false
    → Like (c ∷ p) t
    → (r : Text) × (t ≡ c ∷ r) × Like p r
plain_head c p t h (done e f) = absurd (cc)
plain_head c p t h (many q u r e f l) = let k = head_eq e in absurd (ground arith)
plain_head c p t h (one q r d e f l) = let k = head_eq e in absurd (ground arith)
plain_head c p t h (escaped q r d e f l) = let k = head_eq e in absurd (ground arith)
plain_head c p t h (plain q r d n₁ n₂ n₃ e f l) =
    (r, f ∙ ap (λ x. x ∷ r) (sym (head_eq e)), rw (tail_eq e) l)

-- An escaped text at the head of a pattern takes exactly that text.
escape_like-prefix :
    (s q t : Text) → Like (escape_like s ++ q) t → (r : Text) × (t ≡ s ++ r) × Like q r
unfolding escape_like
escape_like-prefix [] q t l = (t, refl, l)
escape_like-prefix (c ∷ s) q t l = elim (Bool-cases (is_special c)) [
  | inl yes_ ↦
      let (u, e, m) = special_head c (escape_like s ++ q) t (rw (yes_, escape_like) at l) in
      let (r, f, k) = escape_like-prefix s q u m in (r, e ∙ ap (λ x. c ∷ x) f, k)
  | inr no_ ↦
      let (u, e, m) = plain_head c (escape_like s ++ q) t no_ (rw (no_, escape_like) at l) in
      let (r, f, k) = escape_like-prefix s q u m in (r, e ∙ ap (λ x. c ∷ x) f, k)
]

Like-escape_like : (s q r : Text) → Like q r → Like (escape_like s ++ q) (s ++ r)
unfolding escape_like
Like-escape_like [] q r l = l
Like-escape_like (c ∷ s) q r l = elim (Bool-cases (is_special c)) [
  | inl yes_ ↦ rw (yes_, escape_like) (escaped _ _ c refl refl (Like-escape_like s q r l))
  | inr no_ ↦
      rw (no_, escape_like)
        (plain _ _ c (ground arith) (ground arith) (ground arith) refl refl
          (Like-escape_like s q r l))
]

many_inv : (p t : Text) → Like (b'%' ∷ p) t → (s r : Text) × (t ≡ s ++ r) × Like p r
many_inv p t (done e f) = absurd (cc)
many_inv p t (many q s r e f l) = (s, r, f, rw (tail_eq e) l)
many_inv p t (one q r d e f l) = absurd (omega (arith, head_eq e))
many_inv p t (escaped q r d e f l) = absurd (omega (arith, head_eq e))
many_inv p t (plain q r d n₁ n₂ n₃ e f l) = absurd (n₁ (sym (head_eq e)))

-- t holds s.
abbrev pub Contains : Text → Text → Type 0
Contains s t = (a b : Text) × (t ≡ a ++ (s ++ b))

-- The pattern that a LIKE or ILIKE condition passes to the database matches a text exactly if
-- the text contains the term, whatever wildcards and escape characters the term has.
pub like_pattern_iff : (s t : Text) → Like (like_pattern s) t ↔ Contains s t
like_pattern_iff s t = (
  λ l.
      let (a, u, e, m) = many_inv _ t l in
      let (b, f, k) = escape_like-prefix s (b'%' ∷ []) u m in (a, b, e ∙ ap (λ x. a ++ x) f),
  λ h.
      let (a, b, e) = h in
      many _ a (s ++ b) refl e (
        Like-escape_like s (b'%' ∷ []) b (many [] b [] refl (sym (append-nil b)) (done refl refl))),
)
