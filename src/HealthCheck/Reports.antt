-- ===== src/HealthCheck/Reports.antt =====
-- The report of healthcheck/check.go, whatever the order of the probes.
use gobox.Base.{
  ℕ, ◌≡◌, ◌⊎◌, inl, inr, refl, Option, none, some, List, [], ◌∷◌, ◌++◌, Option-cases, if◌then◌else◌,
  arith, Bool-cases, ◌∙◌, ap, sym, subst,
}
use gobox.Base.Dict.{insert, lookup, lookup-insert}
use gobox.Base.Dict.Distinct.{HasDistinctKeys}
use gobox.Base.Errors.{Result, ok, err}
use gobox.Base.Text.{Text, text_eq, text_eq_iff, text_eq_refl}
use gobox.HealthCheck.{Check, DbConn, DbReport, Pinger, probe_db, probed, check_db}
use gobox.HealthCheck.Probing.{Probes, begin_probes, Step, finish, Steps, begun, and_then}

module _ {ℓ} {V : Type ℓ} where
  -- Taking one entry out of a map.
  lookup-append :
      (before after : List (Text × V)) (n : Text) (c : V)
      → HasDistinctKeys (before ++ ((n, c) ∷ after))
      → lookup n (before ++ ((n, c) ∷ after)) ≡ some c
  unfolding lookup
  lookup-append [] after n c h = ground (arith, text_eq_refl n)
  lookup-append ((j, w) ∷ before) after n c (h, more) =
      let rest = lookup-append before after n c more in
      elim (Bool-cases (text_eq j n)) [
        | inr no_ ↦ rw (no_) rest
        | inl yes_ ↦
            let same : j ≡ n = ground (arith, yes_, text_eq_iff j n) in
            let x = sym (subst (λ k. lookup k (before ++ ((n, c) ∷ after)) ≡ none) same h) ∙ rest in
            absurd (cc)
      ]

  lookup-taken :
      (before after : List (Text × V)) (k n : Text) (c : V)
      → HasDistinctKeys (before ++ ((n, c) ∷ after))
      → lookup k (before ++ after)
        ≡ (if text_eq n k then none else lookup k (before ++ ((n, c) ∷ after)))
  unfolding lookup
  lookup-taken [] after k n c (h, more) = elim (Bool-cases (text_eq n k)) [
    | inr no_ ↦ rw (no_) refl
    | inl yes_ ↦
        let same : n ≡ k = ground (arith, yes_, text_eq_iff n k) in
        rw (yes_) (subst (λ j. lookup j after ≡ none) same h)
  ]
  lookup-taken ((j, w) ∷ before) after k n c (h, more) =
      let rest = lookup-taken before after k n c more in
      let there = lookup-append before after n c more in
      elim (Bool-cases (text_eq j k)) [
        | inr no_ ↦ rw (no_) rest
        | inl yes_ ↦ elim (Bool-cases (text_eq n k)) [
          | inr other ↦ rw (yes_, other) refl
          | inl twice ↦
              let a : j ≡ k = ground (arith, yes_, text_eq_iff j k) in
              let b : n ≡ k = ground (arith, twice, text_eq_iff n k) in
              let x =
                sym (subst (λ i. lookup i (before ++ ((n, c) ∷ after)) ≡ none) (a ∙ sym b) h)
                ∙ there in
              absurd (cc)
        ]
      ]

  taken-HasDistinctKeys :
      (before after : List (Text × V)) (n : Text) (c : V)
      → HasDistinctKeys (before ++ ((n, c) ∷ after))
      → HasDistinctKeys (before ++ after)
  taken-HasDistinctKeys [] after n c (h, more) = more
  taken-HasDistinctKeys ((j, w) ∷ before) after n c (h, more) = (
    lookup-taken before after j n c more
        ∙ elim (Bool-cases (text_eq n j)) [ inl yes_ ↦ rw (yes_) refl | inr no_ ↦ rw (no_) h ],
    taken-HasDistinctKeys before after n c more,
  )

abbrev pub answer_of : Result DbReport → Option DbReport
answer_of (ok report) = some report
answer_of (err e) = none

module _ {Db : Type 0} (v : Pinger Db) (s : Check Db) where
  -- A database is to be reported, or has its report, or is not registered.
  abbrev Progressed : Probes Db → Text → Type 0
  Progressed t k =
      ((lookup k t.pending ≡ lookup k s.databases) × (lookup k t.results ≡ none))
      ⊎ ((lookup k t.pending ≡ none)
          × (lookup k t.results ≡ probed v s.ping_timeout (lookup k s.databases)))

  record Inv (t : Probes Db) : Type 0 where
    timeout : t.timeout ≡ s.ping_timeout
    distinct : HasDistinctKeys t.pending
    each : (k : Text) → Progressed t k

  finish-Progressed :
      (t : Probes Db) (before after : List (Text × DbConn Db)) (name : Text) (conn : DbConn Db)
      → t.timeout ≡ s.ping_timeout
      → HasDistinctKeys (before ++ ((name, conn) ∷ after))
      → t.pending ≡ before ++ ((name, conn) ∷ after)
      → (k : Text) → Progressed t k
      → Progressed
          (record t {
            pending = before ++ after;
            results = insert name (probe_db v t.timeout conn) t.results;
          })
          k
  finish-Progressed t before after name conn time d is k h =
      let report = probe_db v t.timeout conn in
      let left = lookup-taken before after k name conn d in
      let written = lookup-insert name k report t.results in
      let pending = ap (lookup k) is in
      elim (Bool-cases (text_eq name k)) [
        | inr no_ ↦
            let a = rw (no_) at left in
            let b = rw (no_) at written in
            elim h [
              | inl (same, none_) ↦ inl (a ∙ (sym pending ∙ same), b ∙ none_)
              | inr (none_, same) ↦ inr (a ∙ (sym pending ∙ none_), b ∙ same)
            ]
        | inl yes_ ↦
            let a = rw (yes_) at left in
            let b = rw (yes_) at written in
            let it : name ≡ k = ground (arith, yes_, text_eq_iff name k) in
            let there : lookup k (before ++ ((name, conn) ∷ after)) ≡ some conn =
              subst (λ j. lookup j (before ++ ((name, conn) ∷ after)) ≡ some conn) it
                (lookup-append before after name conn d) in
            elim h [
              | inl (same, none_) ↦
                  let has = sym same ∙ (pending ∙ there) in
                  inr (
                    a,
                    b
                        ∙ (ap (λ d. some (probe_db v d conn)) time
                            ∙ sym (ap (probed v s.ping_timeout) has)),
                  )
              | inr (none_, same) ↦ let x = sym none_ ∙ (pending ∙ there) in absurd (cc)
            ]
      ]

  Step-Inv : (t u : Probes Db) → Step v t u → Inv t → Inv u
  Step-Inv t u (finish before after name conn is made) h =
      let d = subst HasDistinctKeys is h.distinct in
      rw (made) (record {
        timeout = h.timeout;
        distinct = taken-HasDistinctKeys before after name conn d;
        each = λ k. finish-Progressed t before after name conn h.timeout d is k (h.each k);
      })

  Steps-Inv :
      (n : ℕ) (t : Probes Db) → HasDistinctKeys s.databases → Steps v (begin_probes s) n t → Inv t
  unfolding begin_probes
  Steps-Inv n t d begun = record {
    timeout = refl;
    distinct = d;
    each = λ k. inl (refl, unfold lookup in refl);
  }
  Steps-Inv n t d (and_then {n = m} {t = u} steps st) = Step-Inv u t st (Steps-Inv m u d steps)

  -- If the databases have distinct names: when every goroutine of a report has written, in whatever
  -- order, the report of each name is the probe of its database, as CheckDB gives it, and there is no
  -- other report.
  pub begin_probes-check_db :
      (n : ℕ) (t : Probes Db) (k : Text)
      → HasDistinctKeys s.databases
      → Steps v (begin_probes s) n t
      → t.pending ≡ []
      → lookup k t.results ≡ answer_of (check_db v k s)
  unfolding check_db lookup
  begin_probes-check_db n t k d steps done = elim ((Steps-Inv n t d steps).each k) [
    | inl (same, none_) ↦ let x = sym same ∙ ap (lookup k) done in rw (none_, check_db, x) refl
    | inr (none_, same) ↦ elim (Option-cases (lookup k s.databases)) [
      | inl missing ↦ rw (same, check_db, missing) refl
      | inr (conn, has) ↦ rw (same, check_db, has) refl
    ]
  ]
