-- ===== src/Login/State.antt =====
-- What the login state and the return path of httpserver/middlewares/oidcauth.go promise.
use gobox.Base.{
  ℕ, ◌+◌, ◌≤◌, ◌≡◌, ap, ◌∙◌, inl, inr, refl, true, false, not, ◌||◌, Option, none, some, [], ◌∷◌,
  ◌++◌, arith, All, Bool-cases, Option-cases, ◌==◌, ltb,
}
use gobox.Base.Text.{Text, codes, text_eq, text_eq_iff, text_eq_refl, is_empty}
use gobox.Base.Errors.{ok}
use gobox.Login.{
  LoginState, Codec, login_state_ttl, cut_at_dot, encode_state, decoded, decode_state, has_prefix,
  contains_text, is_relative, sanitize_return_to,
}

cut_at_dot-append :
    (s before after : Text) → cut_at_dot s ≡ some (before, after) → s ≡ before ++ (b'.' ∷ after)
unfolding cut_at_dot
cut_at_dot-append [] before after is = absurd (cc)
cut_at_dot-append (c ∷ s) before after is = elim (Bool-cases (c == b'.')) [
  | inl yes_ ↦
      let x = rw (yes_, cut_at_dot) at is in
      let dot : c ≡ b'.' = ground (arith, yes_) in
      let empty : [] ≡ before = (cc) in
      let same : s ≡ after = (cc) in rw (← empty, ← same, dot) refl
  | inr no_ ↦ elim (Option-cases (cut_at_dot s)) [
    | inl none_ ↦ let x = rw (no_, none_, cut_at_dot) at is in absurd (cc)
    | inr ((p, q), some_) ↦
        let x = rw (no_, some_, cut_at_dot) at is in
        let first : c ∷ p ≡ before = (cc) in
        let second_ : q ≡ after = (cc) in
        rw (← first, ← second_) (ap (λ t. c ∷ t) (cut_at_dot-append s p q some_))
  ]
]

-- A text without a dot, as base64 gives, ends at the first dot after it.
abbrev pub HasNoDot : Text → Type 0
HasNoDot s = All (λ c. (c == b'.') ≡ false) s

cut_at_dot_exact :
    (s after : Text) → HasNoDot s → cut_at_dot (s ++ (b'.' ∷ after)) ≡ some (s, after)
unfolding cut_at_dot
cut_at_dot_exact [] after h = refl
cut_at_dot_exact (c ∷ s) after (no_, h) = rw (no_, cut_at_dot_exact s after h) refl

module _ (k : Codec) where
  -- A state of an authentic text that has not expired.
  abbrev pub IsAuthentic : Text → ℕ → LoginState → Type 0
  IsAuthentic raw now ls =
      (encoded : Text) × (raw ≡ encoded ++ (b'.' ∷ k.sign encoded))
      × (k.decode encoded ≡ some ls)
      × (is_empty ls.verifier ≡ false)
      × (now ≤ ls.exp)

  decoded-ok :
      (o : Option LoginState) (now : ℕ) (ls : LoginState)
      → decoded o now ≡ ok ls
      → (o ≡ some ls) × (is_empty ls.verifier ≡ false) × (now ≤ ls.exp)
  decoded-ok none now ls is = absurd (cc)
  decoded-ok (some x) now ls is = elim (Bool-cases (is_empty x.verifier || ltb x.exp now)) [
    | inl bad ↦ let f = rw (bad) at is in absurd (cc)
    | inr good ↦
        let f = rw (good) at is in
        let same : x ≡ ls = (cc) in rw (← same) (refl, ground (arith, good), ground (arith, good))
  ]

  -- A state is read only from a text that carries its encoding with the signature of this handler's
  -- key, with a PKCE verifier, and not after its expiry.
  pub decode_state-IsAuthentic :
      (raw : Text) (now : ℕ) (ls : LoginState)
      → decode_state k raw now ≡ ok ls
      → IsAuthentic raw now ls
  unfolding decode_state
  decode_state-IsAuthentic raw now ls is = elim (Option-cases (cut_at_dot raw)) [
    | inl none_ ↦ let x = rw (none_, decode_state) at is in absurd (cc)
    | inr ((encoded, sig), some_) ↦ elim (Bool-cases (is_empty encoded || is_empty sig)) [
      | inl blank ↦ let x = rw (some_, blank, decode_state) at is in absurd (cc)
      | inr filled ↦ elim (Bool-cases (text_eq sig (k.sign encoded))) [
        | inr forged ↦ let x = rw (some_, filled, forged, decode_state) at is in absurd (cc)
        | inl signed ↦
            let (a, b, c) =
              decoded-ok (k.decode encoded) now ls
                (rw (some_, filled, signed, decode_state) at is) in
            (
              encoded,
              cut_at_dot-append raw encoded sig some_
                  ∙ ap (λ t. encoded ++ (b'.' ∷ t)) ((text_eq_iff sig (k.sign encoded)).0 signed),
              a,
              b,
              c,
            )
      ]
    ]
  ]

  -- The state that Login encodes is read back by Callback with its verifier and its return path for
  -- ten minutes, if the decoding undoes the encoding of this state, which has no dot and is not
  -- empty, as its signature is not.
  pub decode_state-encode_state :
      (verifier return_to : Text) (now t : ℕ)
      → let ls : LoginState = record {
        verifier = verifier;
        return_to = return_to;
        exp = now + login_state_ttl;
      } in
        k.decode (k.encode ls) ≡ some ls
        → HasNoDot (k.encode ls)
        → is_empty (k.encode ls) ≡ false
        → is_empty (k.sign (k.encode ls)) ≡ false
        → is_empty verifier ≡ false
        → t ≤ now + login_state_ttl
        → decode_state k (encode_state k verifier return_to now) t ≡ ok ls
  unfolding decode_state encode_state
  decode_state-encode_state verifier return_to now t undo plain filled signed given early =
      let e =
        k.encode
          (record { verifier = verifier; return_to = return_to; exp = now + login_state_ttl }) in
      let late : ltb (now + login_state_ttl) t ≡ false = ground (arith, early) in
      rw
        (
          cut_at_dot_exact e (k.sign e) plain,
          filled,
          signed,
          text_eq_refl (k.sign e),
          undo,
          given,
          late,
        )
        refl

-- A return path is one that begins with a single slash and names no scheme, whatever was asked for;
-- such a path is kept.
pub sanitize_return_to-IsLocal :
    (raw : Text)
    → let path = sanitize_return_to raw in
      (is_relative path ≡ true)
      × (has_prefix path (codes "//") ≡ false)
      × (contains_text path (codes "://") ≡ false)
      × (sanitize_return_to path ≡ path)
unfolding sanitize_return_to has_prefix contains_text
sanitize_return_to-IsLocal raw =
    elim (Bool-cases
      (not (is_relative raw) || has_prefix raw (codes "//") || contains_text raw (codes "://"))) [
        | inl bad ↦ rw (bad, sanitize_return_to) (refl, refl, refl, refl)
        | inr good ↦
            rw (good, sanitize_return_to)
              (ground (arith, good), ground (arith, good), ground (arith, good), rw (good) refl)
      ]
