-- ===== src/ApiKey/Lookup.antt =====
-- Looking a credential up by its key id, after it was created and after it was revoked.
use ai_it_dab_com.Prelude.Faults.{fails}
use ai_it_dab_com.Prelude.{
  ℕ, String, ◌≡◌, refl, ap, ◌∙◌, ◌≢◌, Bool, true, false, ◌&&◌, Bool-cases, Option-cases, inl, inr,
  Option, none, some, List, [], ◌∷◌, ◌++◌, arith, ◌==◌, eq_iff, any,
}
use ai_it_dab_com.Prelude.Actions.{ok, err, Error, not_found}
use ai_it_dab_com.ApiKey.{
  ApiKey, CreateParams, KeyDb, statement, is_active, find, update_where, create, revoke,
  get_active_by_key_id,
}
use ai_it_dab_com.ApiKey.Table.{
  has_key_id, active_with, IsUnique, any-update_where, any-update_where-false, find-eq-none,
}
use mathlib.Core.Path.{subst}
use ai_it_dab_com.ApiKey.Steps.{Reach, IsDead, Reach-IsDead}

find-append_fresh :
    (kid : String) (ks : List ApiKey) (k : ApiKey)
    → any (has_key_id kid) ks ≡ false
    → find (active_with kid) (ks ++ k ∷ []) ≡ find (active_with kid) (k ∷ [])
find-append_fresh kid [] k e = refl
find-append_fresh kid (j ∷ js) k e = ground (arith, find-append_fresh kid js k)

-- With unique key ids, stamping the first row that `target` picks leaves no active row of its key id.
abbrev target : String → ApiKey → Bool
target i k = k.id == i && is_active k

abbrev stamp : ℕ → ApiKey → ApiKey
stamp now k = record k { revoked_at = some now }

any-active_with :
    (kid : String) (ks : List ApiKey)
    → any (has_key_id kid) ks ≡ false
    → any (active_with kid) ks ≡ false
any-active_with kid [] e = refl
any-active_with kid (k ∷ ks) e = ground (arith, any-active_with kid ks)

active_with-stamp : (kid : String) (now : ℕ) (k : ApiKey) → active_with kid (stamp now k) ≡ false
active_with-stamp kid now k = ground arith

revoked-inactive :
    (i kid : String) (now : ℕ) (ks : List ApiKey) (r : ApiKey)
    → find (active_with kid) ks ≡ some r
    → r.id ≡ i
    → IsUnique ks
    → any (active_with kid) (update_where (target i) (stamp now) ks) ≡ false
revoked-inactive i kid now [] r f e u = cc
revoked-inactive i kid now (k ∷ ks) r f e (new, u) = elim (Bool-cases (active_with kid k)) [
  | inl hit ↦
      let here : k ≡ r = ground arith in
      let key : k.key_id ≡ kid = (eq_iff k.key_id kid).0 (ground arith) in
      let rest =
        any-update_where-false (active_with kid) (target i) (stamp now) ks
          (λ j _. active_with-stamp kid now j)
          (any-active_with kid ks (subst (λ x. any (has_key_id x) ks ≡ false) key new)) in
      let own : target i k ≡ true = ground (arith, eq_iff k.id i, ap (λ (x : ApiKey). x.id) here) in
      rw (own, rest) (ground arith)
  | inr other ↦
      let rest = revoked-inactive i kid now ks r (rw other at f) e u in rw rest (ground arith)
]

find-has : (p : ApiKey → Bool) (ks : List ApiKey) (r : ApiKey) → find p ks ≡ some r → p r ≡ true
find-has p [] r f = cc
find-has p (k ∷ ks) r f = elim (Bool-cases (p k)) [
  | inl hit ↦ (let here : k ≡ r = ground arith in rw (← here) hit)
  | inr other ↦ find-has p ks r (rw other at f)
]

find-any :
    (kid : String) (ks : List ApiKey) (r : ApiKey)
    → find (active_with kid) ks ≡ some r
    → any (has_key_id kid) ks ≡ true
find-any kid [] r f = cc
find-any kid (k ∷ ks) r f = ground (arith, find-any kid ks r)

module _ (uuid : ℕ → String) (parse_uuid : String → Option String) where
  -- An active credential that GetActiveByKeyID returns is stored under the key id that was asked
  -- for, and it is not revoked.
  pub get_active_by_key_id_ok :
      (kid : String) (s : KeyDb) {k : ApiKey}
      → (get_active_by_key_id uuid parse_uuid kid s).0 ≡ ok k
      → (k.key_id ≡ kid) × (k.revoked_at ≡ none) × (find (active_with kid) s.keys ≡ some k)
  unfolding get_active_by_key_id statement
  get_active_by_key_id_ok kid s {k} h = elim (Option-cases (find (active_with kid) s.keys)) [
    | inl missing ↦ ground arith
    | inr (r, found) ↦
        let same : r ≡ k = ground arith in
        let f = rw same at found in
        let a = find-has (active_with kid) s.keys k f in
        (ground (arith, a, eq_iff k.key_id kid), ground (arith, a), f)
  ]

  -- A credential that was just created is the active one of its key id.
  pub get_active_by_key_id-create :
      (p : CreateParams) (s t : KeyDb) {k : ApiKey}
      → (create uuid parse_uuid p s).0 ≡ ok k
      → t.keys ≡ (create uuid parse_uuid p s).1.keys
      → t.faults ≡ []
      → (get_active_by_key_id uuid parse_uuid p.key_id t).0 ≡ ok k
  unfolding create get_active_by_key_id statement
  get_active_by_key_id-create p s t {k} made same quiet =
      ground (arith, eq_iff p.key_id p.key_id, find-append_fresh p.key_id s.keys k)

  -- The row of a new credential has what it was created with.
  pub create_ok :
      (p : CreateParams) (s : KeyDb) {k : ApiKey}
      → (create uuid parse_uuid p s).0 ≡ ok k
      → (k.secret_hash ≡ p.secret_hash)
        × (k.key_id ≡ p.key_id)
        × (k.name ≡ p.name)
        × (k.persona ≡ p.persona)
        × (k.created_by ≡ p.created_by)
  unfolding create statement
  create_ok p s {k} made = ground arith

  revoke-IsDead :
      (id kid : String) (s : KeyDb) {r : ApiKey} {u : Unit {0}}
      → IsUnique s.keys
      → find (active_with kid) s.keys ≡ some r
      → parse_uuid id ≡ some r.id
      → (revoke uuid parse_uuid id s).0 ≡ ok u
      → IsDead kid (revoke uuid parse_uuid id s).1.keys
  unfolding revoke statement
  revoke-IsDead id kid s {r} unique found good done =
      let keys : (revoke uuid parse_uuid id s).1.keys
          ≡ update_where (target r.id) (stamp s.now) s.keys =
        ground arith in
      rw keys (record {
        known =
            any-update_where (has_key_id kid) (target r.id) (stamp s.now) s.keys (λ k. refl)
            ∙ find-any kid s.keys r found;
        inactive = revoked-inactive r.id kid s.now s.keys r found refl unique;
      })

  pub revoke_dead :
      (id kid : String) (s t : KeyDb) {r : ApiKey} {u : Unit {0}}
      → IsUnique s.keys
      → find (active_with kid) s.keys ≡ some r
      → parse_uuid id ≡ some r.id
      → (revoke uuid parse_uuid id s).0 ≡ ok u
      → Reach uuid parse_uuid (revoke uuid parse_uuid id s).1 t
      → find (active_with kid) t.keys ≡ none
  revoke_dead id kid s t unique found good done reach =
      let d =
        Reach-IsDead uuid parse_uuid kid (revoke-IsDead id kid s unique found good done) reach in
      find-eq-none (active_with kid) t.keys d.inactive

  -- GetActiveByKeyID fails with another error than ErrNotFound only where the statement failed.
  pub get_active_by_key_id_err :
      (kid : String) (s : KeyDb) {e : Error}
      → (get_active_by_key_id uuid parse_uuid kid s).0 ≡ err e
      → e ≢ not_found
      → fails s.faults ≡ true
  unfolding get_active_by_key_id statement
  get_active_by_key_id_err kid s {e} h n = elim (Bool-cases (fails s.faults)) [
    | inl down ↦ down
    | inr up ↦ elim (Option-cases (find (active_with kid) s.keys)) [
      | inl missing ↦ absurd (n (cc (rw (up, missing) at h)))
      | inr (r, found) ↦ cc (rw (up, found) at h)
    ]
  ]

  -- Revoking the active credential of a key id is final: after a successful Revoke, whatever calls
  -- follow, GetActiveByKeyID never returns a credential for that key id again.
  pub revoke_final :
      (id kid : String) (s t : KeyDb) {r k : ApiKey} {u : Unit {0}}
      → IsUnique s.keys
      → find (active_with kid) s.keys ≡ some r
      → parse_uuid id ≡ some r.id
      → (revoke uuid parse_uuid id s).0 ≡ ok u
      → Reach uuid parse_uuid (revoke uuid parse_uuid id s).1 t
      → (get_active_by_key_id uuid parse_uuid kid t).0 ≢ ok k
  revoke_final id kid s t unique found good done reach h =
      cc ((get_active_by_key_id_ok kid t h).2, revoke_dead id kid s t unique found good done reach)
