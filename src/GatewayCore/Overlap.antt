-- ===== src/GatewayCore/Overlap.antt =====
-- dropOverlap drops the longest prefix of the incoming turns that ends the stored history.
use Prim.Native.Nat.{min}
use native.Mathlib.Decide.{dec_le}
use ai_it_dab_com.Prelude.{
  ℕ, zero, suc, ◌-◌, ◌≤◌, ◌<◌, ◌≡◌, refl, ◌↔◌, true, Bool-cases, inl, inr, List, [], ◌∷◌, arith,
  eq_iff, length, take, drop, drop_all, if◌then◌else◌, ltb,
}
use ai_it_dab_com.GatewayCore.{Message, equal_message, equal_messages, overlap_from, drop_overlap}

equal_message_iff : (a b : Message) → (equal_message a b ≡ true) ↔ (a ≡ b)
unfolding equal_message
equal_message_iff a b = ground (arith, eq_iff a.role b.role, eq_iff a.content b.content)

equal_messages_iff : (as' bs : List Message) → (equal_messages as' bs ≡ true) ↔ (as' ≡ bs)
unfolding equal_messages
equal_messages_iff [] [] = ground arith
equal_messages_iff [] (b ∷ bs) = ground arith
equal_messages_iff (a ∷ as') [] = ground arith
equal_messages_iff (a ∷ as') (b ∷ bs) =
    ground (arith, equal_message_iff a b, equal_messages_iff as' bs)

-- The last k stored messages are the first k incoming ones.
abbrev pub Overlaps : List Message → List Message → ℕ → Type 0
Overlaps history incoming k = drop (length history - k) history ≡ take k incoming

-- `rest` is `incoming` without its longest overlap of at most `bound` messages.
pub record IsLongestOverlap (history incoming : List Message) (bound : ℕ) (rest : List Message)
    : Type 0 where
  pub size : ℕ
  pub within : size ≤ bound
  pub overlaps : Overlaps history incoming size
  pub longest : (j : ℕ) → size < j → j ≤ bound → ¬ Overlaps history incoming j
  pub dropped : rest ≡ drop size incoming

IsLongestOverlap-suc :
    (history incoming : List Message) (k : ℕ) (rest : List Message)
    → ¬ Overlaps history incoming (suc k)
    → IsLongestOverlap history incoming k rest
    → IsLongestOverlap history incoming (suc k) rest
IsLongestOverlap-suc history incoming k rest n l = record {
  size = l.size;
  within = omega arith;
  overlaps = l.overlaps;
  longest = λ j below above. elim (dec_le j k) [
    | yes h ↦ l.longest j below h
    | no h ↦ (let e : j ≡ suc k = omega arith in rw e n)
  ];
  dropped = l.dropped;
}

overlap_from_lem :
    (history incoming : List Message) (k : ℕ)
    → IsLongestOverlap history incoming k (overlap_from history incoming k)
unfolding overlap_from
overlap_from_lem history incoming zero = record {
  size = 0;
  within = omega arith;
  overlaps = drop_all (length history - 0) history (omega arith);
  longest = λ j below above. absurd (omega arith);
  dropped = refl;
}
overlap_from_lem history incoming (suc k) =
    elim (Bool-cases
      (equal_messages (drop (length history - suc k) history) (take (suc k) incoming))) [
        | inl same ↦ record {
          size = suc k;
          within = omega arith;
          overlaps = (equal_messages_iff _ _).0 same;
          longest = λ j below above. absurd (omega arith);
          dropped = rw same;
        }
        | inr differ ↦ rw differ (
            IsLongestOverlap-suc history incoming k (overlap_from history incoming k)
              (λ e. cc ((equal_messages_iff _ _).1 e)) (overlap_from_lem history incoming k))
      ]

-- What dropOverlap returns, for all inputs: the incoming turns without the longest prefix that is
-- also the end of the stored history, among the lengths that both lists have.
pub drop_overlap-IsLongestOverlap :
    (history incoming : List Message)
    → IsLongestOverlap history incoming
        (min (length history) (length incoming))
        (drop_overlap history incoming)
unfolding drop_overlap
drop_overlap-IsLongestOverlap history incoming =
    let e : (if ltb (length incoming) (length history) then length incoming else length history)
        ≡ min (length history) (length incoming) =
      ground arith in
    rw (← e) (overlap_from_lem history incoming _)
