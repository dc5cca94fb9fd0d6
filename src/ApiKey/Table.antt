-- ===== src/ApiKey/Table.antt =====
-- The api_keys table under the repository's writes: which facts every sequence of them keeps.
use ai_it_dab_com.Prelude.{
  String, ◌≡◌, refl, ap, ◌∙◌, Bool, false, ◌&&◌, ◌||◌, Bool-cases, inl, inr, none, List, [], ◌∷◌,
  ◌++◌, arith, ◌==◌, eq_iff, any,
}
use ai_it_dab_com.ApiKey.{ApiKey, is_active, find, update_where}

abbrev pub has_key_id : String → ApiKey → Bool
has_key_id kid k = k.key_id == kid

abbrev pub active_with : String → ApiKey → Bool
active_with kid k = k.key_id == kid && is_active k

-- No two rows share a key_id: the unique index of the table.
abbrev pub IsUnique : List ApiKey → Type 0
IsUnique [] = Unit
IsUnique (k ∷ ks) = (any (has_key_id k.key_id) ks ≡ false) × IsUnique ks

pub any-append :
    (p : ApiKey → Bool) (xs ys : List ApiKey) → any p (xs ++ ys) ≡ (any p xs || any p ys)
any-append p [] ys = refl
any-append p (x ∷ xs) ys = ground (arith, any-append p xs ys)

-- An edit that `q` does not see.
pub any-update_where :
    (q p : ApiKey → Bool) (f : ApiKey → ApiKey) (ks : List ApiKey)
    → ((k : ApiKey) → q (f k) ≡ q k)
    → any q (update_where p f ks) ≡ any q ks
any-update_where q p f [] h = refl
any-update_where q p f (k ∷ ks) h = ground (arith, h k, any-update_where q p f ks h)

pub any-update_where-false :
    (q p : ApiKey → Bool) (f : ApiKey → ApiKey) (ks : List ApiKey)
    → ((k : ApiKey) → q k ≡ false → q (f k) ≡ false)
    → any q ks ≡ false
    → any q (update_where p f ks) ≡ false
any-update_where-false q p f [] h e = refl
any-update_where-false q p f (k ∷ ks) h e = ground (arith, h k, any-update_where-false q p f ks h)

pub IsUnique-update_where :
    (p : ApiKey → Bool) (f : ApiKey → ApiKey) (ks : List ApiKey)
    → ((k : ApiKey) → (f k).key_id ≡ k.key_id)
    → IsUnique ks
    → IsUnique (update_where p f ks)
IsUnique-update_where p f [] h u = tt
IsUnique-update_where p f (k ∷ ks) h (new, u) =
    let rest = IsUnique-update_where p f ks h u in
    let hidden =
      any-update_where (has_key_id k.key_id) p f ks (λ j. ap (λ x. x == k.key_id) (h j)) in
    elim (Bool-cases (p k)) [
      | inl e ↦ rw (e, h k) (hidden ∙ new, rest)
      | inr e ↦ rw e (hidden ∙ new, rest)
    ]

pub IsUnique-append :
    (ks : List ApiKey) (k : ApiKey)
    → any (has_key_id k.key_id) ks ≡ false
    → IsUnique ks
    → IsUnique (ks ++ k ∷ [])
IsUnique-append [] k e u = (refl, tt)
IsUnique-append (j ∷ js) k e (new, u) = (
  ground (
    arith,
    any-append (has_key_id j.key_id) js (k ∷ []),
    eq_iff j.key_id k.key_id,
    eq_iff k.key_id j.key_id,
  ),
  IsUnique-append js k (ground arith) u,
)

pub find-eq-none : (p : ApiKey → Bool) (ks : List ApiKey) → any p ks ≡ false → find p ks ≡ none
find-eq-none p [] e = refl
find-eq-none p (k ∷ ks) e = ground (arith, find-eq-none p ks)
