-- ===== src/Auth/Password/Laws.antt =====
-- Which passwords are hashed, and that a hash verifies.
use Prim.Native.String.{len}
use ai_it_dab_com.Prelude.{◌≤◌, String, ◌≡◌, refl, ◌↔◌, true, Option-cases, inl, inr, some, arith}
use ai_it_dab_com.Auth.Password.{
  Bcrypt, matched, hashed, password_too_short, password_too_long, hash_password, verify_password,
}

-- What bcrypt promises: a hash that it generated matches its password.
abbrev pub IsBcrypt : Bcrypt → Type 0
IsBcrypt b = (p h : String) → b.generate p ≡ some h → b.compare h p ≡ matched

module _ (b : Bcrypt) where
  hash_password_inv :
      (p : String) {h : String}
      → hash_password b p ≡ hashed h
      → (8 ≤ len p) × (len p ≤ 72) × (b.generate p ≡ some h)
  unfolding hash_password
  hash_password_inv p e = elim (Option-cases (b.generate p)) [
    | inl none_made ↦ ground arith
    | inr (h, made) ↦ ground (arith)
  ]

  short : (p : String) → hash_password b p ≡ password_too_short → len p ≤ 7
  unfolding hash_password
  short p e = elim (Option-cases (b.generate p)) [
    | inl unmade ↦ ground arith
    | inr (h, made) ↦ ground arith
  ]

  long : (p : String) → hash_password b p ≡ password_too_long → 73 ≤ len p
  unfolding hash_password
  long p e = elim (Option-cases (b.generate p)) [
    | inl unmade ↦ ground arith
    | inr (h, made) ↦ ground arith
  ]

  -- A password is hashed only with 8 to 72 bytes, both included, so that bcrypt never cuts it off; it
  -- is too short exactly below 8 and too long exactly above 72. A hash that was made verifies, where
  -- bcrypt matches what it generated.
  pub hash_password_bounds :
      (p : String)
      → IsBcrypt b
      → ((h : String)
          → hash_password b p ≡ hashed h
          → (8 ≤ len p) × (len p ≤ 72) × (verify_password b p h ≡ some true))
        × ((hash_password b p ≡ password_too_short) ↔ (len p ≤ 7))
        × ((hash_password b p ≡ password_too_long) ↔ (73 ≤ len p))
  unfolding hash_password verify_password
  hash_password_bounds p law = (
    λ h e. (let (lo, hi, made) = hash_password_inv p e in (lo, hi, rw (law p h made) refl)),
    (short p, λ e. ground arith),
    (long p, λ e. ground arith),
  )
