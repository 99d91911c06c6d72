-- ===== src/Middleware/Roles/Order.antt =====
-- The values that httpserver/middlewares/authorization.go injects do not depend on an order.
use gobox.Base.{
  ◌≡◌, ◌≢◌, ◌↔◌, ◌⊎◌, inl, inr, refl, sym, ◌∙◌, Bool, true, Option, none, some, List, [], ◌∷◌,
  arith, Bool-cases, Option-cases,
}
use gobox.Base.Text.{Text, text_eq_iff}
use gobox.Base.Dict.{lookup, insert, lookup-insert}
use gobox.Middleware.Roles.{
  RoleContext, put, stage_values, stage, commit, committed, apply_role_contexts,
}

-- A list of values has v for k.
abbrev pub Offers : {V : Type 0} → List (Text × V) → Text → V → Type 0
Offers [] k v = ⊥
Offers ((j, w) ∷ values) k v = ((j ≡ k) × (w ≡ v)) ⊎ Offers values k v

-- An entry of a role that the caller has offers v for k.
abbrev pub IsOffered : {V : Type 0} → (Text → Bool) → List (RoleContext V) → Text → V → Type 0
IsOffered has [] k v = ⊥
IsOffered has (e ∷ extras) k v =
    ((has e.role_name ≡ true) × Offers e.values k v) ⊎ IsOffered has extras k v

module _ {V : Type 0} (eq : V → V → Bool) (eq_iff : (a b : V) → (eq a b ≡ true) ↔ (a ≡ b)) where
  -- What is found after staging: the values of before, and those that the list offers.
  abbrev Staged : List (Text × V) → (Text → V → Type 0) → List (Text × V) → Type 0
  Staged before Offered after =
      (k : Text) (v : V) → (lookup k after ≡ some v) ↔ ((lookup k before ≡ some v) ⊎ Offered k v)

  -- Two values of a key differ.
  abbrev Clash : List (Text × V) → (Text → V → Type 0) → Type 0
  Clash before Offered =
      (k : Text) × (v : V) × (w : V) × ((lookup k before ≡ some v) ⊎ Offered k v)
      × Offered k w
      × (v ≢ w)

  put-Staged :
      (k : Text) (v : V) (before after : List (Text × V))
      → put eq (lookup k before) k v before ≡ some after
      → Staged before (λ j w. (k ≡ j) × (v ≡ w)) after
  put-Staged k v before after is j w = elim (Option-cases (lookup k before)) [
    | inl none_ ↦
        let x = rw (none_) at is in
        let same : insert k v before ≡ after = (cc) in
        rw (← same, lookup-insert k j v before) (ground (arith, text_eq_iff k j))
    | inr (u, some_) ↦ elim (Bool-cases (eq u v)) [
      | inl yes_ ↦
          let x = rw (some_, yes_) at is in
          let same : insert k v before ≡ after = (cc) in
          let equal = (eq_iff u v).0 yes_ in
          rw (← same, lookup-insert k j v before) (ground (arith, text_eq_iff k j))
      | inr no_ ↦ let x = rw (some_, no_) at is in absurd (cc)
    ]
  ]

  abbrev Outcome : List (Text × V) → (Text → V → Type 0) → Option (List (Text × V)) → Type 0
  Outcome before Offered none = Clash before Offered
  Outcome before Offered (some after) = Staged before Offered after

  put-Outcome :
      (k : Text) (v : V) (before : List (Text × V))
      → Outcome before (λ j w. (k ≡ j) × (v ≡ w)) (put eq (lookup k before) k v before)
  put-Outcome k v before = elim (Option-cases (lookup k before)) [
    | inl none_ ↦ rw (none_) (put-Staged k v before (insert k v before) (rw (none_) refl))
    | inr (u, some_) ↦ elim (Bool-cases (eq u v)) [
      | inl yes_ ↦
          rw (some_, yes_) (put-Staged k v before (insert k v before) (rw (some_, yes_) refl))
      | inr no_ ↦
          rw (some_, no_)
            (k, u, v, inl some_, (refl, refl), λ e. let x = (eq_iff u v).1 e in absurd (cc))
    ]
  ]

  Outcome-then :
      (before m : List (Text × V)) (P Q : Text → V → Type 0) (r : Option (List (Text × V)))
      → Staged before P m
      → Outcome m Q r
      → Outcome before (λ k v. P k v ⊎ Q k v) r
  Outcome-then before m P Q none h (k, v, w, o, q, ne) = (
    k,
    v,
    w,
    elim o [
      | inl found ↦ elim ((h k v).0 found) [ inl b ↦ inl b | inr p ↦ inr (inl p) ]
      | inr x ↦ inr (inr x)
    ],
    inr q,
    ne,
  )
  Outcome-then before m P Q (some after) h g = λ k v. (
    λ is. elim ((g k v).0 is) [
      | inl found ↦ elim ((h k v).0 found) [ inl b ↦ inl b | inr p ↦ inr (inl p) ]
      | inr q ↦ inr (inr q)
    ],
    λ o. elim o [
      | inl b ↦ (g k v).1 (inl ((h k v).1 (inl b)))
      | inr (inl p) ↦ (g k v).1 (inl ((h k v).1 (inr p)))
      | inr (inr q) ↦ (g k v).1 (inr q)
    ],
  )

  Clash-left :
      (before : List (Text × V)) (P Q : Text → V → Type 0)
      → Clash before P
      → Clash before (λ k v. P k v ⊎ Q k v)
  Clash-left before P Q (k, v, w, o, p, ne) =
      (k, v, w, elim o [ inl b ↦ inl b | inr x ↦ inr (inl x) ], inl p, ne)

  stage_values-Outcome :
      (values before : List (Text × V))
      → Outcome before (Offers values) (stage_values eq values before)
  unfolding stage_values
  stage_values-Outcome [] before =
      λ k v. (λ is. inl is, λ o. elim o [ inl b ↦ b | inr x ↦ absurd x ])
  stage_values-Outcome ((k, v) ∷ values) before =
      elim (Option-cases (put eq (lookup k before) k v before)) [
        | inl e ↦
            rw (e, stage_values)
              (Clash-left before _ (Offers values) (rw (e) at (put-Outcome k v before)))
        | inr (m, e) ↦
            rw (e, stage_values)
              (Outcome-then before m _ (Offers values) (stage_values eq values m)
                (rw (e) at (put-Outcome k v before)) (stage_values-Outcome values m))
      ]

  Outcome-map :
      (before : List (Text × V)) (P Q : Text → V → Type 0) (r : Option (List (Text × V)))
      → ((k : Text) (v : V) → P k v ↔ Q k v)
      → Outcome before P r
      → Outcome before Q r
  Outcome-map before P Q none h (k, v, w, o, p, ne) =
      (k, v, w, elim o [ inl b ↦ inl b | inr x ↦ inr ((h k v).0 x) ], (h k w).0 p, ne)
  Outcome-map before P Q (some after) h g = λ k v. (
    λ is. elim ((g k v).0 is) [ inl b ↦ inl b | inr x ↦ inr ((h k v).0 x) ],
    λ o. (g k v).1 (elim o [ inl b ↦ inl b | inr x ↦ inr ((h k v).1 x) ]),
  )

  stage-Outcome :
      (has : Text → Bool) (extras : List (RoleContext V)) (before : List (Text × V))
      → Outcome before (IsOffered has extras) (stage eq has extras before)
  unfolding stage
  stage-Outcome has [] before = λ k v. (λ is. inl is, λ o. elim o [ inl b ↦ b | inr x ↦ absurd x ])
  stage-Outcome has (e ∷ extras) before = elim (Bool-cases (has e.role_name)) [
    | inl held ↦
        Outcome-map before (λ k v. Offers e.values k v ⊎ IsOffered has extras k v)
          (IsOffered has (e ∷ extras)) (stage eq has (e ∷ extras) before)
          (λ k v. (
            λ o. elim o [ inl x ↦ inl (held, x) | inr y ↦ inr y ],
            λ o. elim o [ inl x ↦ inl x.1 | inr y ↦ inr y ],
          ))
          (elim (Option-cases (stage_values eq e.values before)) [
            | inl clash ↦
                rw (held, clash, stage)
                  (Clash-left before (Offers e.values) (IsOffered has extras)
                    (rw (clash) at (stage_values-Outcome e.values before)))
            | inr (m, staged) ↦
                rw (held, staged, stage)
                  (Outcome-then before m (Offers e.values) (IsOffered has extras)
                    (stage eq has extras m) (rw (staged) at (stage_values-Outcome e.values before))
                    (stage-Outcome has extras m))
          ])
    | inr other ↦
        Outcome-map before (IsOffered has extras) (IsOffered has (e ∷ extras))
          (stage eq has (e ∷ extras) before)
          (λ k v. (λ y. inr y, λ o. elim o [ inl x ↦ absurd (cc) | inr y ↦ y ]))
          (rw (other, stage) (stage-Outcome has extras before))
  ]

  -- Both fail, or both give the same map.
  abbrev pub Same : Option (List (Text × V)) → Option (List (Text × V)) → Type 0
  Same none none = Unit
  Same none (some b) = ⊥
  Same (some a) none = ⊥
  Same (some a) (some b) = (k : Text) → lookup k a ≡ lookup k b

  clash_absurd :
      (P Q : Text → V → Type 0) (after : List (Text × V))
      → ((k : Text) (v : V) → P k v ↔ Q k v)
      → Clash [] P
      → Staged [] Q after
      → ⊥
  unfolding lookup
  clash_absurd P Q after h (k, v, w, inl found, p, ne) g = absurd (cc)
  clash_absurd P Q after h (k, v, w, inr o, p, ne) g =
      let a = (g k v).1 (inr ((h k v).0 o)) in let b = (g k w).1 (inr ((h k w).0 p)) in ne (cc)

  lookup_agrees :
      (P Q : Text → V → Type 0) (a b : List (Text × V)) (k : Text) (v : V)
      → ((k : Text) (v : V) → P k v ↔ Q k v)
      → Staged [] P a
      → Staged [] Q b
      → lookup k a ≡ some v
      → lookup k b ≡ some v
  unfolding lookup
  lookup_agrees P Q a b k v h f g is = elim ((f k v).0 is) [
    | inl found ↦ absurd (cc)
    | inr p ↦ (g k v).1 (inr ((h k v).0 p))
  ]

  Outcome-Same :
      (P Q : Text → V → Type 0) (r s : Option (List (Text × V)))
      → ((k : Text) (v : V) → P k v ↔ Q k v)
      → Outcome [] P r
      → Outcome [] Q s
      → Same r s
  Outcome-Same P Q none none h f g = tt
  Outcome-Same P Q none (some b) h f g = clash_absurd P Q b h f g
  Outcome-Same P Q (some a) none h f g = clash_absurd Q P a (λ k v. ((h k v).1, (h k v).0)) g f
  Outcome-Same P Q (some a) (some b) h f g = λ k. elim (Option-cases (lookup k a)) [
    | inr (v, is) ↦ is ∙ sym (lookup_agrees P Q a b k v h f g is)
    | inl no_ ↦ elim (Option-cases (lookup k b)) [
      | inl none_ ↦ no_ ∙ sym none_
      | inr (w, is) ↦
          let x = lookup_agrees Q P b a k w (λ k v. ((h k v).1, (h k v).0)) g f is in absurd (cc)
    ]
  ]

  abbrev over : Option V → Option V → Option V
  over none old = old
  over (some v) old = some v

  lookup-commit :
      (k : Text) (a ctx : List (Text × V))
      → lookup k (commit a ctx) ≡ over (lookup k a) (lookup k ctx)
  unfolding commit lookup
  lookup-commit k [] ctx = refl
  lookup-commit k ((j, v) ∷ a) ctx =
      rw (lookup-insert j k v (commit a ctx)) (ground (arith, lookup-commit k a ctx))

  committed-Same :
      (r s : Option (List (Text × V))) (ctx : List (Text × V))
      → Same r s
      → Same (committed r ctx) (committed s ctx)
  committed-Same none none ctx h = tt
  committed-Same none (some b) ctx h = absurd h
  committed-Same (some a) none ctx h = absurd h
  committed-Same (some a) (some b) ctx h =
      λ k. rw (lookup-commit k a ctx, lookup-commit k b ctx, h k) refl

  -- The values that a caller's roles inject do not depend on the order of the entries and of the
  -- values in them: if two lists offer the same values, they both conflict or set the same map.
  pub apply_role_contexts-Same :
      (has : Text → Bool) (extras others : List (RoleContext V)) (ctx : List (Text × V))
      → ((k : Text) (v : V) → IsOffered has extras k v ↔ IsOffered has others k v)
      → Same (apply_role_contexts eq has extras ctx) (apply_role_contexts eq has others ctx)
  unfolding apply_role_contexts
  apply_role_contexts-Same has extras others ctx h =
      committed-Same (stage eq has extras []) (stage eq has others []) ctx (
        Outcome-Same (IsOffered has extras) (IsOffered has others) _ _ h
          (stage-Outcome has extras []) (stage-Outcome has others []))
