-- ===== src/Gateway/Stream/Lines.antt =====
-- read_lines cuts the body into its lines and loses nothing.
use Prim.Native.Char.{code}
use Prim.Native.String
use text.Mathlib.TextLemmas.{append_assoc as str_assoc, nil-append, cons-append}
use ai_it_dab_com.Prelude.{String, ◌≡◌, ◌∙◌, ap, List, [], ◌∷◌, arith, Bool-cases, inl, inr, concat}
use ai_it_dab_com.Gateway.Stream.{read_lines, is_newline, cons_char}

cons_char-concat :
    (c : String) (ls : List String) (tail : String)
    → let (ls', tail') = cons_char c (ls, tail) in
      String.◌++◌ (concat ls') tail' ≡ String.◌++◌ c (String.◌++◌ (concat ls) tail)
unfolding concat
cons_char-concat c [] tail = grind (arith, nil-append, str_assoc)
cons_char-concat c (l ∷ ls) tail = grind (arith, nil-append, str_assoc)

-- The lines that the relay reads, and the rest that comes with the error, joined, are the body's
-- text: no byte is lost, added or moved.
pub concat-read_lines :
    (text : String) → let (lines, tail) = read_lines text in String.◌++◌ (concat lines) tail ≡ text
unfolding read_lines concat
concat-read_lines String.[] = nil-append ""
concat-read_lines (String.◌∷◌ c s) =
    let (ls, tail) = read_lines s in
    let joined = concat-read_lines s in
    let one = cons-append c "" s in
    let step = ap (String.◌++◌ (String.◌∷◌ c "")) joined ∙ one ∙ ap (String.◌∷◌ c) (nil-append s) in
    elim (Bool-cases (is_newline (code c))) [
      | inl e ↦ rw e (str_assoc (String.◌∷◌ c "") (concat ls) tail ∙ step)
      | inr e ↦ rw e (cons_char-concat (String.◌∷◌ c "") ls tail ∙ step)
    ]
