-- ===== src/ApiKey/Credential.antt =====
-- backend/internal/apikey/credential.go: minting a credential, and hashing and verifying a secret.
-- SHA-256, base64url and the random source are outside the model: `sha256` gives the digest of a
-- text as bytes, `base64url` the unpadded encoding of bytes, and the random source gives bytes or
-- fails. Hexadecimal encoding and decoding are modelled.
pub mod Minting
use Prim.Native.Char.{Char, code}
use Prim.Native.String
use ai_it_dab_com.Prelude.{
  length, ◌∙◌, ℕ, zero, suc, ◌+◌, ◌-◌, ◌*◌, ◌/◌, ◌%◌, ◌<◌, ◌≡◌, refl, ap, String, Bool, true, false,
  ◌&&◌, Option, none, some, List, [], ◌∷◌, arith, leb, if◌then◌else◌, All, ◌↔◌,
}
use ai_it_dab_com.Prelude.Actions.{Result, ok, err, failed}

abbrev pub key_id_prefix : String
key_id_prefix = "dab_pk_"

abbrev pub secret_prefix : String
secret_prefix = "dab_sk_"

abbrev pub key_id_bytes : ℕ
key_id_bytes = 16

abbrev pub secret_bytes : ℕ
secret_bytes = 32

pub record Credential : Type 0 where
  pub key_id : String
  pub secret : String
  pub secret_hash : String

abbrev hex_digits : List Char
hex_digits =
    "0" ∷ "1" ∷ "2" ∷ "3" ∷ "4" ∷ "5" ∷ "6" ∷ "7" ∷ "8" ∷ "9" ∷ "a" ∷ "b" ∷ "c" ∷ "d" ∷ "e" ∷ "f"
    ∷ []

abbrev nth : List Char → ℕ → Char
nth [] n = "0"
nth (c ∷ cs) zero = c
nth (c ∷ cs) (suc n) = nth cs n

unfoldable pub hex_char : ℕ → Char
hex_char n = nth hex_digits n

-- hex.EncodeToString
unfoldable pub hex_encode : List ℕ → String
hex_encode [] = ""
hex_encode (b ∷ bs) =
    String.◌∷◌ (hex_char (b / 16)) (String.◌∷◌ (hex_char (b % 16)) (hex_encode bs))

abbrev from_hex : ℕ → Option ℕ
from_hex c =
    if leb b'0' c && leb c b'9'
    then some (c - b'0')
    else if leb b'a' c && leb c b'f'
    then some (c - b'a' + 10)
    else if leb b'A' c && leb c b'F'
    then some (c - b'A' + 10)
    else none

abbrev join : Option ℕ → Option ℕ → Option (List ℕ) → Option (List ℕ)
join (some hi) (some lo) (some bs) = some ((hi * 16 + lo) ∷ bs)
join _ _ _ = none

-- hex.DecodeString: `none` for an odd length or a character that is no hexadecimal digit.
pub hex_decode : String → Option (List ℕ)
hex_decode String.[] = some []
hex_decode (String.◌∷◌ c String.[]) = none
hex_decode (String.◌∷◌ c (String.◌∷◌ d s)) =
    join (from_hex (code c)) (from_hex (code d)) (hex_decode s)

-- subtle.ConstantTimeCompare == 1
bytes_eq : List ℕ → List ℕ → Bool
bytes_eq [] [] = true
bytes_eq [] (b ∷ bs) = false
bytes_eq (a ∷ as') [] = false
bytes_eq (a ∷ as') (b ∷ bs) = (leb a b && leb b a) && bytes_eq as' bs

abbrev matches : List ℕ → Option (List ℕ) → Bool
matches got none = false
matches got (some want) = bytes_eq got want

module _ (sha256 : String → List ℕ) where
  unfoldable pub hash_secret : String → String
  hash_secret secret = hex_encode (sha256 secret)

  pub verify_secret : String → String → Bool
  verify_secret secret stored_hash = matches (sha256 secret) (hex_decode stored_hash)

-- randToken, with what rand.Read gave for its bytes.
unfoldable pub rand_token : (List ℕ → String) → String → Option (List ℕ) → Result String
rand_token base64url prefix none = err (failed "apikey: generating token")
rand_token base64url prefix (some b) = ok (String.◌++◌ prefix (base64url b))

-- What rand.Read gives for so many bytes, at the first and the second call of Generate.
pub record Random : Type 0 where
  pub first : ℕ → Option (List ℕ)
  pub second : ℕ → Option (List ℕ)

abbrev pub and_then {ℓ κ} : {A : Type ℓ} {B : Type κ} → Result A → (A → Result B) → Result B
and_then (ok a) f = f a
and_then (err e) f = err e

module _ (sha256 : String → List ℕ) (base64url : List ℕ → String) where
  unfoldable pub generate : Random → Result Credential
  generate r = and_then (rand_token base64url key_id_prefix (r.first key_id_bytes)) λ key_id.
      and_then (rand_token base64url secret_prefix (r.second secret_bytes)) λ secret.
        ok (record { key_id = key_id; secret = secret; secret_hash = hash_secret sha256 secret })

-- Every digit of the encoding is read back.
abbrev reads_back : Option ℕ → ℕ → Bool
reads_back none n = false
reads_back (some m) n = leb m n && leb n m

reads_back_lem : (o : Option ℕ) (n : ℕ) → reads_back o n ≡ true → o ≡ some n
reads_back_lem none n h = cc
reads_back_lem (some m) n h = ap some (ground arith)

-- The characters read back as the numbers from `k` on.
read_from : ℕ → List Char → Bool
read_from k [] = true
read_from k (c ∷ cs) = reads_back (from_hex (code c)) k && read_from (suc k) cs

read_from-nth :
    (cs : List Char) (k n : ℕ)
    → read_from k cs ≡ true
    → n < length cs
    → from_hex (code (nth cs n)) ≡ some (k + n)
unfolding read_from
read_from-nth [] k n h lt = absurd (omega arith)
read_from-nth (c ∷ cs) k zero h lt = reads_back_lem _ k (ground arith) ∙ ap some (omega arith)
read_from-nth (c ∷ cs) k (suc n) h lt =
    read_from-nth cs (suc k) n (ground arith) (omega arith) ∙ ap some (omega arith)

from_hex-hex_char : (n : ℕ) → n < 16 → from_hex (code (hex_char n)) ≡ some n
unfolding read_from hex_char
from_hex-hex_char n h = read_from-nth hex_digits 0 n refl h ∙ ap some (omega arith)

-- Decoding gives back the bytes that were encoded.
pub hex_decode-hex_encode :
    (bs : List ℕ) → All (λ b. b < 256) bs → hex_decode (hex_encode bs) ≡ some bs
unfolding hex_decode hex_encode
hex_decode-hex_encode [] h = refl
hex_decode-hex_encode (b ∷ bs) (p, h) =
    rw
      (
        from_hex-hex_char (b / 16) (omega arith),
        from_hex-hex_char (b % 16) (omega arith),
        hex_decode-hex_encode bs h,
      )
      (ap (λ c. some (c ∷ bs)) (omega arith))

bytes_eq_iff : (as' bs : List ℕ) → (bytes_eq as' bs ≡ true) ↔ (as' ≡ bs)
unfolding bytes_eq
bytes_eq_iff [] [] = ground arith
bytes_eq_iff [] (b ∷ bs) = ground arith
bytes_eq_iff (a ∷ as') [] = ground arith
bytes_eq_iff (a ∷ as') (b ∷ bs) = ground (arith, bytes_eq_iff as' bs)

module _ (sha256 : String → List ℕ) (bytes : (s : String) → All (λ b. b < 256) (sha256 s)) where
  -- A presented secret is accepted against the stored hash of a secret exactly when the two have
  -- one SHA-256 digest; so the secret itself always is.
  pub verify_secret-hash_secret :
      (presented secret : String)
      → (verify_secret sha256 presented (hash_secret sha256 secret) ≡ true)
        ↔ (sha256 presented ≡ sha256 secret)
  unfolding verify_secret hash_secret
  verify_secret-hash_secret presented secret =
      rw (hex_decode-hex_encode (sha256 secret) (bytes secret))
        (bytes_eq_iff (sha256 presented) (sha256 secret))
