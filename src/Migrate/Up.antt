-- ===== src/Migrate/Up.antt =====
-- Up records what it applies, leaves nothing pending, and is idempotent.
use mathlib.Core.List.{append_assoc, append-nil, map-append}
use mathlib.Core.Path.{subst}
use ai_it_dab_com.Prelude.Faults.{fails, later}
use ai_it_dab_com.Prelude.{
  String, ◌≡◌, refl, sym, ◌∙◌, ap, true, ◌||◌, Option, none, some, List, [], ◌∷◌, ◌++◌, arith,
  eq_iff, All, Bool-cases, Option-cases, inl, inr,
}
use ai_it_dab_com.Migrate.{
  Migration, Row, MigrateDb, has_version, versions_of, insert_version, sort_versions, sent,
  applied_versions, run_up, up_loop, up,
}

any-append :
    (v : String) (us vs : List String)
    → has_version v (us ++ vs) ≡ (has_version v us || has_version v vs)
any-append v [] vs = refl
any-append v (u ∷ us) vs = ground (arith, any-append v us vs)

has_version-insert_version :
    (v u : String) (us : List String) → has_version v (insert_version u us) ≡ has_version v (u ∷ us)
unfolding insert_version
has_version-insert_version v u [] = refl
has_version-insert_version v u (w ∷ us) = ground (arith, has_version-insert_version v u us)

has_version-sort_versions :
    (v : String) (us : List String) → has_version v (sort_versions us) ≡ has_version v us
unfolding sort_versions
has_version-sort_versions v [] = refl
has_version-sort_versions v (u ∷ us) =
    ground
      (arith, has_version-insert_version v u (sort_versions us), has_version-sort_versions v us)

module _ {Schema : Type 0} (exec : String → Schema → Option Schema) where
  run_up-some :
      (m : Migration) (s : MigrateDb Schema) {t : MigrateDb Schema}
      → run_up exec m s ≡ some t
      → (versions_of t.rows ≡ versions_of s.rows ++ m.version ∷ []) × (t.faults ≡ later s.faults)
  unfolding run_up
  run_up-some m s {t} h = elim (Option-cases (exec m.up s.schema)) [
    | inl e ↦ ground (arith, e)
    | inr (d, e) ↦ elim (Bool-cases (fails s.faults)) [
      | inl down ↦ cc (rw down at h)
      | inr sound ↦ elim (Bool-cases (has_version m.version (versions_of s.rows))) [
        | inl clash ↦ cc (rw (sound, clash) at h)
        | inr free ↦
            let row : Row = record { version = m.version; name = m.name } in
            let made = rw (sound, free, e) at h in
            let rows : t.rows ≡ s.rows ++ row ∷ [] = cc made in
            (ap versions_of rows ∙ map-append (λ (r : Row). r.version) s.rows (row ∷ []), cc made)
      ]
    ]
  ]

  up_loop_recorded :
      (applied : List String) (migs : List Migration) (done : List String) (s : MigrateDb Schema)
      → let (o, t) = up_loop exec applied migs done s in
        (new : List String) × (o.versions ≡ done ++ new)
        × (versions_of t.rows ≡ versions_of s.rows ++ new)
  unfolding up_loop
  up_loop_recorded applied [] done s =
      ([], sym (append-nil done), sym (append-nil (versions_of s.rows)))
  up_loop_recorded applied (m ∷ ms) done s = elim (Bool-cases (has_version m.version applied)) [
    | inl e ↦ rw e (up_loop_recorded applied ms done s)
    | inr e ↦ elim (Option-cases (run_up exec m s)) [
      | inl bad ↦ rw (e, bad) ([], sym (append-nil done), sym (append-nil (versions_of s.rows)))
      | inr (t, ran) ↦
          let (new, grown, kept) = up_loop_recorded applied ms (done ++ m.version ∷ []) t in
          rw (e, ran)
            (
              m.version ∷ new,
              grown ∙ append_assoc done (m.version ∷ []) new,
              kept
                  ∙ ap (λ x. x ++ new) (run_up-some m s ran).0
                  ∙ append_assoc (versions_of s.rows) (m.version ∷ []) new,
            )
    ]
  ]

  abbrev Covered : List String → MigrateDb Schema → Migration → Type 0
  Covered applied t m =
      (has_version m.version applied || has_version m.version (versions_of t.rows)) ≡ true

  up_loop-Covered :
      (applied : List String) (migs : List Migration) (done : List String) (s : MigrateDb Schema)
      → let (o, t) = up_loop exec applied migs done s in
        o.failure ≡ none → All (Covered applied t) migs
  unfolding up_loop
  up_loop-Covered applied [] done s h = tt
  up_loop-Covered applied (m ∷ ms) done s h = elim (Bool-cases (has_version m.version applied)) [
    | inl e ↦
        let rest = up_loop exec applied ms done s in
        let same : up_loop exec applied (m ∷ ms) done s ≡ rest = rw e refl in
        subst (λ x. All (Covered applied x.1) (m ∷ ms)) (sym same)
          (
            ap (λ b. b || has_version m.version (versions_of rest.1.rows)) e,
            up_loop-Covered applied ms done s (rw e at h),
          )
    | inr e ↦ elim (Option-cases (run_up exec m s)) [
      | inl bad ↦ cc (rw (e, bad) at h)
      | inr (t, ran) ↦
          let done' = done ++ m.version ∷ [] in
          let rest = up_loop exec applied ms done' t in
          let same : up_loop exec applied (m ∷ ms) done s ≡ rest = rw (e, ran) refl in
          let (new, _, kept) = up_loop_recorded applied ms done' t in
          let here = any-append m.version (versions_of s.rows ++ m.version ∷ []) new in
          let last = any-append m.version (versions_of s.rows) (m.version ∷ []) in
          let rows = kept ∙ ap (λ x. x ++ new) (run_up-some m s ran).0 in
          let own : Covered applied rest.1 m =
            ground
              (arith, ap (has_version m.version) rows, here, last, eq_iff m.version m.version) in
          subst (λ x. All (Covered applied x.1) (m ∷ ms)) (sym same)
            (own, up_loop-Covered applied ms done' t (rw (e, ran) at h))
    ]
  ]

  up_loop_skips :
      (applied : List String) (migs : List Migration) (done : List String) (s : MigrateDb Schema)
      → All (λ m. has_version m.version applied ≡ true) migs
      → up_loop exec applied migs done s ≡ (record { versions = done; failure = none }, s)
  unfolding up_loop
  up_loop_skips applied [] done s h = refl
  up_loop_skips applied (m ∷ ms) done s (e, h) = rw e (up_loop_skips applied ms done s h)

  -- What the loop covered is all recorded, where the set it was given was read from the same rows.
  All-recorded :
      (applied old new : List String) (t : MigrateDb Schema) (migs : List Migration)
      → ((v : String) → has_version v applied ≡ has_version v old)
      → versions_of t.rows ≡ old ++ new
      → All (Covered applied t) migs
      → All (λ m. has_version m.version (versions_of t.rows) ≡ true) migs
  All-recorded applied old new t [] same grown h = tt
  All-recorded applied old new t (m ∷ ms) same grown (c, h) = (
    ground (arith, same m.version, ap (has_version m.version) grown, any-append m.version old new),
    All-recorded applied old new t ms same grown h,
  )

  -- Whether Up succeeds or fails part way, schema_migrations then has its old rows and, behind them,
  -- a row for just the versions that Up reports, in their order.
  pub up-recorded :
      (migs : List Migration) (s : MigrateDb Schema)
      → let (o, t) = up exec migs s in versions_of t.rows ≡ versions_of s.rows ++ o.versions
  unfolding up applied_versions
  up-recorded migs s = elim (Bool-cases (fails s.faults)) [
    | inl e ↦ rw e (sym (append-nil (versions_of s.rows)))
    | inr e ↦ elim (Bool-cases (fails (later s.faults))) [
      | inl e' ↦ rw (e, e') (sym (append-nil (versions_of s.rows)))
      | inr e' ↦
          let (new, told, grown) =
            up_loop_recorded (sort_versions (versions_of s.rows)) migs [] (sent (sent s)) in
          rw (e, e') (grown ∙ ap (λ x. versions_of s.rows ++ x) (sym told))
    ]
  ]

  -- Where Up returns no error, every migration is recorded as applied.
  pub up_complete :
      (migs : List Migration) (s : MigrateDb Schema)
      → let (o, t) = up exec migs s in
        o.failure ≡ none → All (λ m. has_version m.version (versions_of t.rows) ≡ true) migs
  unfolding up applied_versions
  up_complete migs s h = elim (Bool-cases (fails s.faults)) [
    | inl e ↦ cc (rw e at h)
    | inr e ↦ elim (Bool-cases (fails (later s.faults))) [
      | inl e' ↦ cc (rw (e, e') at h)
      | inr e' ↦
          let applied = sort_versions (versions_of s.rows) in
          let s' = sent (sent s) in
          let (new, _, grown) = up_loop_recorded applied migs [] s' in
          rw (e, e')
            (All-recorded applied (versions_of s.rows) new (up_loop exec applied migs [] s').1 migs
              (λ v. has_version-sort_versions v (versions_of s.rows)) grown
              (up_loop-Covered applied migs [] s' (rw (e, e') at h)))
    ]
  ]

  recorded-sorted :
      (vs : List String) (migs : List Migration)
      → All (λ m. has_version m.version vs ≡ true) migs
      → All (λ m. has_version m.version (sort_versions vs) ≡ true) migs
  recorded-sorted vs [] h = tt
  recorded-sorted vs (m ∷ ms) (e, h) =
      (has_version-sort_versions m.version vs ∙ e, recorded-sorted vs ms h)

  again :
      (migs : List Migration) (t : MigrateDb Schema)
      → All (λ m. has_version m.version (versions_of t.rows) ≡ true) migs
      → t.faults ≡ []
      → up exec migs t ≡ (record { versions = []; failure = none }, t)
  unfolding up applied_versions
  again migs t h quiet = rw quiet (
      up_loop_skips (sort_versions (versions_of t.rows)) migs [] (record t { faults = [] })
        (recorded-sorted (versions_of t.rows) migs h))

  -- Up is idempotent: run again after a success, with no failure of the database, it reports no
  -- version and changes nothing.
  pub up-idempotent :
      (migs : List Migration) (s : MigrateDb Schema)
      → let (o, t) = up exec migs s in
        o.failure ≡ none
        → t.faults ≡ []
        → up exec migs t ≡ (record { versions = []; failure = none }, t)
  up-idempotent migs s h quiet = again migs (up exec migs s).1 (up_complete migs s h) quiet
