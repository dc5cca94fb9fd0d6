-- ===== src/Migrate/Create/Names.antt =====
-- The names that Create makes are names that Load reads.
use Prim.Native.Char.{Char, code}
use Prim.Native.String
use text.Mathlib.TextLemmas.{nil-append, cons-append}
use ai_it_dab_com.Prelude.{
  ℕ, zero, suc, String, ◌≡◌, ◌⊎◌, refl, Bool, true, false, ◌&&◌, Bool-cases, some, inl, inr, arith,
  ◌==◌, trim_left, trim_right,
}
use ai_it_dab_com.Migrate.Files.{
  is_digit, is_alnum, is_underscore, scan_digits, split_label, is_label,
}
use ai_it_dab_com.Migrate.Create.{collapse}

-- n digits and nothing else
abbrev pub is_digits : ℕ → String → Bool
is_digits zero String.[] = true
is_digits zero (String.◌∷◌ c s) = false
is_digits (suc n) String.[] = false
is_digits (suc n) (String.◌∷◌ c s) = let rest = is_digits n s in is_digit (code c) && rest

pub scan_digits-append :
    (n : ℕ) (v rest : String)
    → is_digits n v ≡ true
    → scan_digits n (String.◌++◌ v rest) ≡ some (v, rest)
unfolding scan_digits
scan_digits-append zero String.[] rest h = rw (nil-append rest) refl
scan_digits-append zero (String.◌∷◌ c s) rest h = cc h
scan_digits-append (suc n) String.[] rest h = cc h
scan_digits-append (suc n) (String.◌∷◌ c s) rest h = elim (Bool-cases (is_digit (code c))) [
  | inl yes_ ↦
      let tail = scan_digits-append n s rest (rw yes_ at h) in
      rw (cons-append c s rest, yes_, tail) refl
  | inr no_ ↦ cc (rw no_ at h)
]

pub split_label-append :
    (inside : Bool) (l t : String)
    → is_label inside l ≡ true
    → split_label t ≡ ("", t)
    → split_label (String.◌++◌ l t) ≡ (l, t)
unfolding split_label is_label
split_label-append inside String.[] t h e = rw (nil-append t) e
split_label-append inside (String.◌∷◌ c s) t h e = elim (Bool-cases (is_alnum (code c))) [
  | inl alnum ↦
      let tail = split_label-append true s t (rw alnum at h) e in
      rw (cons-append c s t, alnum, tail) refl
  | inr other ↦ elim (Bool-cases (is_underscore (code c))) [
    | inl line ↦
        let inner : is_label false s ≡ true = ground arith in
        let tail = split_label-append false s t inner e in
        rw (cons-append c s t, other, line, tail) refl
    | inr wrong ↦ absurd (ground arith)
  ]
]

-- Without its leading underscore, a collapsed text is one that began inside of a run.
pub trim_left-collapse :
    (in_run : Bool) (s : String) → trim_left is_underscore (collapse in_run s) ≡ collapse true s
unfolding trim_left collapse
trim_left-collapse in_run String.[] = refl
trim_left-collapse in_run (String.◌∷◌ c s) = elim (Bool-cases (is_alnum (code c))) [
  | inl alnum ↦ let plain : is_underscore (code c) ≡ false = ground arith in rw (alnum, plain) refl
  | inr other ↦ elim (Bool-cases in_run) [
    | inl run ↦ rw (other, run) (trim_left-collapse true s)
    | inr fresh ↦ rw (other, fresh) (trim_left-collapse true s)
  ]
]

-- A last character that is kept.
trim_right_kept :
    (p : ℕ → Bool) (c : Char) (s : String)
    → p (code c) ≡ false
    → trim_right p (String.◌∷◌ c s) ≡ String.◌∷◌ c (trim_right p s)
unfolding trim_right
trim_right_kept p c s kept = elim (Bool-cases (trim_right p s == "")) [
  | inl empty ↦ rw (empty, kept) refl
  | inr rest ↦ rw rest refl
]

-- What is left of a collapsed text inside of a group goes on with it, and at its start it is a label,
-- if it is not empty.
pub trim_right-collapse_label :
    (s : String)
    → (is_label true (trim_right is_underscore (collapse false s)) ≡ true)
      × (((trim_right is_underscore (collapse true s) == "") ≡ true)
          ⊎ (is_label false (trim_right is_underscore (collapse true s)) ≡ true))
unfolding trim_right collapse is_label
trim_right-collapse_label String.[] = (refl, inl refl)
trim_right-collapse_label (String.◌∷◌ c s) =
    let (inside, start) = trim_right-collapse_label s in
    let group = trim_right is_underscore (collapse true s) in
    elim (Bool-cases (is_alnum (code c))) [
      | inl alnum ↦
          let plain : is_underscore (code c) ≡ false = ground arith in
          let kept = trim_right_kept is_underscore c (collapse false s) plain in
          rw (alnum, kept, alnum) (inside, inr inside)
      | inr other ↦ rw other (
        elim (Bool-cases (group == "")) [
          | inl empty ↦ rw empty refl
          | inr rest ↦ elim start [ inl empty ↦ cc | inr good ↦ rw (rest, good) refl ]
        ],
        start,
      )
    ]
