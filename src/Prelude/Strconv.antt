-- ===== src/Prelude/Strconv.antt =====
-- What the program uses of strconv, and of fmt's %d: decimal numbers, with Go's 64-bit int, and the
-- spellings of a boolean.
use Prim.Native.Nat.{ℕ, zero, suc, ◌+◌, ◌-◌, ◌*◌, ◌/◌, ◌%◌, ◌^◌, ◌<◌}
use Prim.Native.Char.{code}
use Prim.Native.String
use Prim.Native.String.{String}
use mathlib.Core.Bool.{Bool, true, false}
use mathlib.Core.Option.{Option, none, some}
use mathlib.Core.List.{[], ◌∷◌}
use mathlib.Core.Logic.{dite}
use mathlib.Core.WellFounded.{Acc, WellFounded}
use native.Mathlib.Decide.{dec_lt}
use native.Mathlib.Omega.{arith}
use text.Mathlib.Text.{◌==◌}
use ai_it_dab_com.Prelude.Tests.{leb, if◌then◌else◌}
use ai_it_dab_com.Prelude.Lists.{any}
use ai_it_dab_com.Prelude.Text.{within}
use ai_it_dab_com.Prelude.Int.{ℤ, pos, negsuc}

-- The value of a run of digits, on top of those before it.
unfoldable pub scan : String → ℕ → Option ℕ
scan String.[] n = some n
scan (String.◌∷◌ c s) n = if within 48 57 (code c) then scan s (n * 10 + (code c - 48)) else none

abbrev digits_of : String → Option ℕ
digits_of s = if s == "" then none else scan s 0

abbrev in_int : Option ℕ → Option ℤ
in_int none = none
in_int (some n) = if leb n (2 ^ 63 - 1) then some (pos n) else none

abbrev negated : Option ℕ → Option ℤ
negated none = none
negated (some zero) = some (pos 0)
negated (some (suc n)) = if leb (suc n) (2 ^ 63) then some (negsuc n) else none

-- strconv.Atoi, with `none` for its error
unfoldable pub atoi : String → Option ℤ
unfolding scan
atoi String.[] = none
atoi (String.◌∷◌ c s) =
    if within 45 45 (code c)
    then negated (digits_of s)
    else if within 43 43 (code c)
    then in_int (digits_of s)
    else in_int (scan (String.◌∷◌ c s) 0)

-- strconv.ParseBool
unfoldable pub parse_bool : String → Option Bool
parse_bool s =
    if any (λ t. t == s) ("1" ∷ "t" ∷ "T" ∷ "true" ∷ "TRUE" ∷ "True" ∷ [])
    then some true
    else if any (λ t. t == s) ("0" ∷ "f" ∷ "F" ∷ "false" ∷ "FALSE" ∷ "False" ∷ [])
    then some false
    else none

below_acc : (bound n : ℕ) → n < bound → Acc ◌<◌ n
below_acc zero n h = absurd (omega arith)
below_acc (suc bound) n h = Acc.intro n λ m lt. below_acc bound m (omega arith)

unfoldable pub lt_wf : WellFounded ◌<◌
unfolding below_acc
lt_wf = record { apply = λ n. below_acc (suc n) n (omega arith) }

pub tenth_lt : {n : ℕ} → 0 < n → n / 10 < n
tenth_lt h = omega arith

abbrev digit : ℕ → String
digit d = Prim.Native.String.slice "0123456789" d (d + 1)

-- The digits of a positive number before `out`.
unfoldable pub emit : (n : ℕ) → Acc ◌<◌ n → String → String
emit n (Acc.intro _ smaller) out =
    dite (dec_lt 0 n)
      (λ h. emit (n / 10) (smaller (n / 10) (tenth_lt h)) (String.◌++◌ (digit (n % 10)) out))
      (λ _. out)

-- fmt's %d of a number that is not negative
unfoldable pub format : ℕ → String
unfolding emit lt_wf
format n = if leb n 0 then "0" else emit n (lt_wf.apply n) ""
