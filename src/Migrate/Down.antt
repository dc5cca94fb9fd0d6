-- ===== src/Migrate/Down.antt =====
-- Down rolls the newest versions back, in order, and no more than it was asked to.
use mathlib.Core.List.{append_assoc, append-nil}
use ai_it_dab_com.Prelude.Faults.{fails, later}
use ai_it_dab_com.Prelude.{
  ℕ, zero, suc, ◌≤◌, String, ◌≡◌, refl, sym, ◌∙◌, ap, Option, some, List, [], ◌∷◌, ◌++◌, arith,
  ◌==◌, eq_iff, Bool-cases, Option-cases, inl, inr, length,
}
use ai_it_dab_com.Prelude.Int.{ℤ}
use ai_it_dab_com.Migrate.{
  Migration, Row, MigrateDb, versions_of, sort_versions, reverse_onto, by_version, delete_version,
  sent, applied_versions, run_down, down_loop, step_count, down,
}

abbrev pub delete_all : List String → List Row → List Row
delete_all [] rs = rs
delete_all (v ∷ vs) rs = delete_all vs (delete_version v rs)

by_version-some :
    (v : String) (ms : List Migration) {m : Migration} → by_version v ms ≡ some m → m.version ≡ v
by_version-some v [] h = cc
by_version-some v (n ∷ ns) {m} h = elim (Option-cases (by_version v ns)) [
  | inr (k, e) ↦ (let same : k ≡ m = cc (rw e at h) in rw (← same) (by_version-some v ns e))
  | inl e ↦ elim (Bool-cases (n.version == v)) [
    | inl hit ↦
        (let same : n ≡ m = cc (rw (e, hit) at h) in rw (← same) ((eq_iff n.version v).0 hit))
    | inr missed ↦ cc (rw (e, missed) at h)
  ]
]

-- What a run of Down did, for the newest-first `order` and at most `steps` versions: `new` is the
-- order's front, and just its versions are gone from the rows.
pub record IsRolledBack (order : List String) (steps : ℕ) (new : List String) (s t : List Row)
    : Type 0 where
  pub rest : List String
  pub front : order ≡ new ++ rest
  pub rows : t ≡ delete_all new s
  pub bound : length new ≤ steps

module _ {Schema : Type 0} (exec : String → Schema → Option Schema) where
  run_down-some :
      (m : Migration) (s : MigrateDb Schema) {t : MigrateDb Schema}
      → run_down exec m s ≡ some t
      → t.rows ≡ delete_version m.version s.rows
  unfolding run_down
  run_down-some m s {t} h = elim (Bool-cases (fails s.faults)) [
    | inl down ↦ cc (rw down at h)
    | inr sound ↦ elim (Option-cases (exec m.down s.schema)) [
      | inl bad ↦ cc (rw (sound, bad) at h)
      | inr (d, e) ↦ (let made = rw (sound, e) at h in cc made)
    ]
  ]

  down_loop-IsRolledBack :
      (migs : List Migration) (order : List String) (steps : ℕ) (reverted : List String)
      (s : MigrateDb Schema)
      → let (o, t) = down_loop exec migs order steps reverted s in
        (new : List String) × (o.versions ≡ reverted ++ new)
        × IsRolledBack order steps new s.rows t.rows
  unfolding down_loop
  down_loop-IsRolledBack migs [] steps reverted s = (
    [],
    sym (append-nil reverted),
    record { rest = []; front = refl; rows = refl; bound = omega arith },
  )
  down_loop-IsRolledBack migs (v ∷ vs) zero reverted s = (
    [],
    sym (append-nil reverted),
    record { rest = v ∷ vs; front = refl; rows = refl; bound = omega arith },
  )
  down_loop-IsRolledBack migs (v ∷ vs) (suc steps) reverted s =
      let nothing = sym (append-nil reverted) in
      elim (Option-cases (by_version v migs)) [
        | inl e ↦
            rw e (
              [],
              nothing,
              record { rest = v ∷ vs; front = refl; rows = refl; bound = omega arith },
            )
        | inr (m, e) ↦ elim (Option-cases (run_down exec m s)) [
          | inl bad ↦
              rw (e, bad)
                (
                  [],
                  nothing,
                  record { rest = v ∷ vs; front = refl; rows = refl; bound = omega arith },
                )
          | inr (t, ran) ↦
              let (new, told, back) = down_loop-IsRolledBack migs vs steps (reverted ++ v ∷ []) t in
              let gone =
                run_down-some m s ran
                ∙ ap (λ x. delete_version x s.rows) (by_version-some v migs e) in
              rw (e, ran)
                (
                  v ∷ new,
                  told ∙ append_assoc reverted (v ∷ []) new,
                  record {
                    rest = back.rest;
                    front = ap (λ x. v ∷ x) back.front;
                    rows = back.rows ∙ ap (delete_all new) gone;
                    bound = omega (arith, back.bound);
                  },
                )
        ]
      ]

  -- Down reports the front of the applied versions, newest first, at most as many as it was asked to
  -- roll back (one, where it was asked for none or fewer), and schema_migrations has lost the rows of
  -- just those versions, also where it stopped at an error.
  pub down-IsRolledBack :
      (migs : List Migration) (steps : ℤ) (s : MigrateDb Schema)
      → let (o, t) = down exec migs steps s in
        IsRolledBack
          (reverse_onto [] (sort_versions (versions_of s.rows)))
          (step_count exec steps)
          o.versions
          s.rows
          t.rows
  unfolding down applied_versions
  down-IsRolledBack migs steps s =
      let order = reverse_onto [] (sort_versions (versions_of s.rows)) in
      elim (Bool-cases (fails s.faults)) [
        | inl e ↦ rw e (record { rest = order; front = refl; rows = refl; bound = omega arith })
        | inr e ↦ elim (Bool-cases (fails (later s.faults))) [
          | inl e' ↦
              rw (e, e') (record { rest = order; front = refl; rows = refl; bound = omega arith })
          | inr e' ↦
              let (new, told, back) =
                down_loop-IsRolledBack migs order (step_count exec steps) [] (sent (sent s)) in
              rw (e, e', told) back
        ]
      ]
