-- ===== src/ApiKey/Steps.antt =====
-- Every sequence of writes to the api_keys table keeps the key ids unique, and a key id that has no
-- active row has none for good.
use mathlib.Core.Bool.{false≢true}
use mathlib.Core.Path.{subst}
use ai_it_dab_com.Prelude.Faults.{fails}
use ai_it_dab_com.Prelude.{
  ℕ, String, ◌≡◌, refl, ap, ◌∙◌, sym, Bool, true, false, ◌&&◌, Bool-cases, Option-cases, inl, inr,
  Option, none, some, List, [], ◌∷◌, ◌++◌, arith, ◌==◌, eq_iff, any,
}
use ai_it_dab_com.ApiKey.{
  ApiKey, CreateParams, UpdateParams, KeyDb, statement, is_active, update_where, create, update,
  revoke, touch_last_used,
}
use ai_it_dab_com.ApiKey.Table.{
  has_key_id, active_with, IsUnique, any-append, any-update_where, any-update_where-false,
  IsUnique-update_where, IsUnique-append,
}

-- What changes the table: any call of a method that writes, or time passing, or the coming failures
-- being chosen. Each holds the state after the call.
pub data Step (uuid : ℕ → String) (parse_uuid : String → Option String) (s : KeyDb)
    : KeyDb → Type 0 where
  created : (p : CreateParams) → Step uuid parse_uuid s (create uuid parse_uuid p s).1
  updated :
      (id : String) (p : UpdateParams) → Step uuid parse_uuid s (update uuid parse_uuid id p s).1
  revoked : (id : String) → Step uuid parse_uuid s (revoke uuid parse_uuid id s).1
  touched : (id : String) → Step uuid parse_uuid s (touch_last_used uuid parse_uuid id s).1
  waited :
      (now : ℕ) (faults : List Bool)
      → Step uuid parse_uuid s (record s { now = now; faults = faults })

pub data Reach (uuid : ℕ → String) (parse_uuid : String → Option String) (s : KeyDb)
    : KeyDb → Type 0 where
  here : Reach uuid parse_uuid s s
  next :
      {t u : KeyDb}
      → Reach uuid parse_uuid s t
      → Step uuid parse_uuid t u
      → Reach uuid parse_uuid s u

-- The key id is taken, and none of its rows is active.
pub record IsDead (kid : String) (ks : List ApiKey) : Type 0 where
  pub known : any (has_key_id kid) ks ≡ true
  pub inactive : any (active_with kid) ks ≡ false

-- What one call may do to the rows: nothing, add one with a fresh key id, or edit some in place,
-- without changing a key id and without making an inactive row active.
data Change (ks ks' : List ApiKey) : Type 0 where
  same : ks' ≡ ks → Change ks ks'
  added :
      (row : ApiKey) → any (has_key_id row.key_id) ks ≡ false → ks' ≡ ks ++ row ∷ [] → Change ks ks'
  edited :
      (p : ApiKey → Bool) (f : ApiKey → ApiKey)
      → ((k : ApiKey) → (f k).key_id ≡ k.key_id)
      → ((k : ApiKey) → is_active k ≡ false → is_active (f k) ≡ false)
      → ks' ≡ update_where p f ks
      → Change ks ks'

module _ (uuid : ℕ → String) (parse_uuid : String → Option String) where
  create-Change : (p : CreateParams) (s : KeyDb) → Change s.keys (create uuid parse_uuid p s).1.keys
  unfolding create statement
  create-Change p s = elim (Bool-cases (fails s.faults)) [
    | inl down ↦ same (ground arith)
    | inr up ↦ elim (Bool-cases (any (has_key_id p.key_id) s.keys)) [
      | inl used ↦ same (ground arith)
      | inr free ↦
          added
            (record {
              id = uuid s.serial;
              key_id = p.key_id;
              secret_hash = p.secret_hash;
              name = p.name;
              persona = p.persona;
              created_by = p.created_by;
              created_at = s.now;
              revoked_at = none;
              last_used_at = none;
            })
            free (ground arith)
    ]
  ]

  update-Change :
      (id : String) (p : UpdateParams) (s : KeyDb)
      → Change s.keys (update uuid parse_uuid id p s).1.keys
  unfolding update statement
  update-Change id p s = elim (Bool-cases (fails s.faults)) [
    | inl down ↦ same (ground arith)
    | inr up ↦ elim (Option-cases (parse_uuid id)) [
      | inl bad ↦ same (ground arith)
      | inr (i, good) ↦
          edited (λ k. k.id == i) (λ k. record k { name = p.name; persona = p.persona }) (λ k. refl)
            (λ k h. h) (ground arith)
    ]
  ]

  revoke-Change : (id : String) (s : KeyDb) → Change s.keys (revoke uuid parse_uuid id s).1.keys
  unfolding revoke statement
  revoke-Change id s = elim (Bool-cases (fails s.faults)) [
    | inl down ↦ same (ground arith)
    | inr up ↦ elim (Option-cases (parse_uuid id)) [
      | inl bad ↦ same (ground arith)
      | inr (i, good) ↦ elim (Bool-cases (any (λ k. k.id == i && is_active k) s.keys)) [
        | inl hit ↦
            edited (λ k. k.id == i && is_active k) (λ k. record k { revoked_at = some s.now })
              (λ k. refl) (λ k h. refl) (ground arith)
        | inr missed ↦ same (ground arith)
      ]
    ]
  ]

  touch-Change :
      (id : String) (s : KeyDb) → Change s.keys (touch_last_used uuid parse_uuid id s).1.keys
  unfolding touch_last_used statement
  touch-Change id s = elim (Bool-cases (fails s.faults)) [
    | inl down ↦ same (ground arith)
    | inr up ↦ elim (Option-cases (parse_uuid id)) [
      | inl bad ↦ same (ground arith)
      | inr (i, good) ↦
          edited (λ k. k.id == i) (λ k. record k { last_used_at = some s.now }) (λ k. refl)
            (λ k h. h) (ground arith)
    ]
  ]

  Step-Change : {s t : KeyDb} → Step uuid parse_uuid s t → Change s.keys t.keys
  Step-Change {s} (created p) = create-Change p s
  Step-Change {s} (updated id p) = update-Change id p s
  Step-Change {s} (revoked id) = revoke-Change id s
  Step-Change {s} (touched id) = touch-Change id s
  Step-Change (waited now faults) = same refl

Change-IsUnique : (ks ks' : List ApiKey) → Change ks ks' → IsUnique ks → IsUnique ks'
Change-IsUnique ks ks' (same e) u = rw e u
Change-IsUnique ks ks' (added row fresh e) u = rw e (IsUnique-append ks row fresh u)
Change-IsUnique ks ks' (edited p f ids stay e) u = rw e (IsUnique-update_where p f ks ids u)

active_with-edit :
    (kid : String) (f : ApiKey → ApiKey) (k : ApiKey)
    → (f k).key_id ≡ k.key_id
    → (is_active k ≡ false → is_active (f k) ≡ false)
    → active_with kid k ≡ false
    → active_with kid (f k) ≡ false
active_with-edit kid f k ids stay h = ground arith

Change-IsDead :
    (kid : String) (ks ks' : List ApiKey) → Change ks ks' → IsDead kid ks → IsDead kid ks'
Change-IsDead kid ks ks' (same e) d = rw e d
Change-IsDead kid ks ks' (added row fresh e) d = rw e (record {
  known = ground (arith, any-append (has_key_id kid) ks (row ∷ []), d.known);
  inactive = elim (Bool-cases (row.key_id == kid)) [
    | inl taken_id ↦ absurd (
        false≢true (
          sym
            (subst (λ x. any (has_key_id x) ks ≡ false) ((eq_iff row.key_id kid).0 taken_id) fresh)
          ∙ d.known))
    | inr other ↦ ground (arith, any-append (active_with kid) ks (row ∷ []), d.inactive)
  ];
})
Change-IsDead kid ks ks' (edited p f ids stay e) d = rw e (record {
  known = any-update_where (has_key_id kid) p f ks (λ k. ap (λ x. x == kid) (ids k)) ∙ d.known;
  inactive =
      any-update_where-false (active_with kid) p f ks
        (λ k h. active_with-edit kid f k (ids k) (stay k) h) d.inactive;
})

module _ (uuid : ℕ → String) (parse_uuid : String → Option String) where
  -- Whatever calls are made, in any order and with any failures, no two rows share a key_id.
  pub Reach-IsUnique : {s t : KeyDb} → IsUnique s.keys → Reach uuid parse_uuid s t → IsUnique t.keys
  Reach-IsUnique u here = u
  Reach-IsUnique {s} u (next {t} r st) =
      Change-IsUnique t.keys _ (Step-Change uuid parse_uuid st) (Reach-IsUnique u r)

  pub Reach-IsDead :
      {s t : KeyDb} (kid : String)
      → IsDead kid s.keys
      → Reach uuid parse_uuid s t
      → IsDead kid t.keys
  Reach-IsDead kid d here = d
  Reach-IsDead {s} kid d (next {t} r st) =
      Change-IsDead kid t.keys _ (Step-Change uuid parse_uuid st) (Reach-IsDead kid d r)
