-- ===== src/MigrateCommand/Laws.antt =====
-- What a usage error leaves alone.
use ai_it_dab_com.Prelude.{
  String, ◌≡◌, ◌≢◌, refl, Bool, Bool-cases, Option, none, some, List, [], ◌∷◌, ◌==◌, ◌||◌, inl, inr,
  arith, Option-cases, is_empty,
}
use ai_it_dab_com.Prelude.Int.{ℤ}
use ai_it_dab_com.Migrate.{
  Migration, Status, MigrateDb, Outcome, up, down, get_status, current_version,
}
use ai_it_dab_com.Migrate.Files.{Entry, Loaded, loaded, refused, load}
use ai_it_dab_com.MigrateCommand.{
  report, report_status, report_version, steps_of, run_loaded, run_db, main,
}

report_code : (word nothing : String) (o : Outcome) → (report word nothing o).code ≢ 2
report_code word nothing o = elim (Option-cases o.failure) [
  | inr (e, failed) ↦ rw failed (λ h. omega arith)
  | inl fine ↦ elim (Bool-cases (is_empty o.versions)) [
    | inl idle ↦ rw (fine, idle) (λ h. omega arith)
    | inr busy ↦ rw (fine, busy) (λ h. omega arith)
  ]
]

report_status_code : (st : Option (List Status)) → (report_status st).code ≢ 2
report_status_code none h = omega arith
report_status_code (some st) h = omega arith

report_version_code : (v : Option String) → (report_version v).code ≢ 2
report_version_code none = λ h. omega arith
report_version_code (some v) = elim (Bool-cases (v == "")) [
  | inl unset ↦ rw unset (λ h. omega arith)
  | inr set ↦ rw set (λ h. omega arith)
]

module _ {Schema : Type 0} (exec : String → Schema → Option Schema) where
  run_loaded_usage :
      (cmd : String) (args : List String) (l : Loaded (List Migration)) (s : MigrateDb Schema)
      → (run_loaded exec cmd args l s).0.code ≡ 2
      → (run_loaded exec cmd args l s).1 ≡ s
  run_loaded_usage cmd args (refused e) s h = absurd (omega arith)
  run_loaded_usage cmd args (loaded migs) s h = elim (Bool-cases (cmd == "up")) [
    | inl is_up ↦
        absurd (report_code "applied" "already up to date" (up exec migs s).0 (rw is_up at h))
    | inr not_up ↦ elim (Bool-cases (cmd == "down")) [
      | inl is_down ↦ elim (Option-cases (steps_of args)) [
        | inl bad ↦ rw (not_up, is_down, bad) refl
        | inr (n, good) ↦ absurd (
            report_code "reverted" "nothing to roll back" (down exec migs (ℤ.pos n) s).0
              (rw (not_up, is_down, good) at h))
      ]
      | inr not_down ↦ elim (Bool-cases (cmd == "status")) [
        | inl is_status ↦
            absurd
              (report_status_code (get_status migs s).0 (rw (not_up, not_down, is_status) at h))
        | inr not_status ↦
            absurd
              (report_version_code (current_version s).0 (rw (not_up, not_down, not_status) at h))
      ]
    ]
  ]

  -- A command line that ends with the status 2, for a usage error, leaves the database as it was.
  pub main_usage :
      (configured connects : Bool) (directory : Option (List Entry))
      (create : String → Option (String × String)) (args : List String) (s : MigrateDb Schema)
      → (main exec configured connects directory create args s).0.code ≡ 2
      → (main exec configured connects directory create args s).1 ≡ s
  unfolding main run_db
  main_usage configured connects directory create [] s h = refl
  main_usage configured connects directory create (cmd ∷ args) s h =
      elim (Bool-cases (cmd == "create")) [
        | inl making ↦ rw making refl
        | inr other ↦
            elim (Bool-cases
              (cmd == "up" || cmd == "down" || cmd == "status" || cmd == "version")) [
                | inl runs ↦ elim (Bool-cases configured) [
                  | inl set ↦ elim (Bool-cases connects) [
                    | inl up_ ↦
                        let h' = rw (other, runs, set, up_) at h in
                        rw (other, runs, set, up_) (run_loaded_usage cmd args (load directory) s h')
                    | inr down_ ↦ rw (other, runs, set, down_) refl
                  ]
                  | inr unset ↦ rw (other, runs, unset) refl
                ]
                | inr unknown ↦
                    elim (Bool-cases (cmd == "-h" || cmd == "--help" || cmd == "help")) [
                      | inl help ↦ rw (other, unknown, help) refl
                      | inr bad ↦ rw (other, unknown, bad) refl
                    ]
              ]
      ]
