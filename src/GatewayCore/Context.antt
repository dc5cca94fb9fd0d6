-- ===== src/GatewayCore/Context.antt =====
-- AssembleContext: what is sent upstream.
use Prim.Native.Nat.{min, max}
use ai_it_dab_com.Prelude.{
  ℕ, ◌+◌, ◌-◌, ◌≤◌, ◌≡◌, refl, ap, sym, List, ◌++◌, arith, length, take, drop, String,
  take-append-drop, length-append, length-drop,
}
use ai_it_dab_com.Prelude.Actions.{ok, continue-eq-ok, pure, ok-injective}
use ai_it_dab_com.Conversation.{Conversation, MessageRow}
use ai_it_dab_com.GatewayCore.{
  Message, ConvRepo, drop_overlap, cap_history, persona_messages, assemble, assemble_context,
  to_messages,
}
use ai_it_dab_com.GatewayCore.Overlap.{IsLongestOverlap, drop_overlap-IsLongestOverlap}

-- The history is split into the dropped oldest messages and the kept ones, and just as many are
-- kept as the cap leaves room for beside the incoming turns.
pub record IsCapped (history incoming : List Message) (max_history : ℕ) (kept : List Message)
    : Type 0 where
  pub dropped : List Message
  pub split : history ≡ dropped ++ kept
  pub count : length kept ≡ min (length history) (max_history - length incoming)

cap_history-eq-drop :
    (history incoming : List Message) (max_history : ℕ)
    → cap_history history incoming max_history
      ≡ drop (min (length history) (length history + length incoming - max_history)) history
unfolding cap_history
cap_history-eq-drop history incoming max_history = ground arith

cap_history-IsCapped :
    (history incoming : List Message) (max_history : ℕ)
    → IsCapped history incoming max_history (cap_history history incoming max_history)
cap_history-IsCapped history incoming max_history =
    let n = min (length history) (length history + length incoming - max_history) in
    rw (cap_history-eq-drop history incoming max_history) (record {
      dropped = take n history;
      split = sym (take-append-drop n history);
      count = omega (arith, length-drop n history);
    })

-- The upstream context: the persona, the kept history and the fresh turns, in this order.
pub record IsAssembled (max_history : ℕ) (persona : String) (history incoming : List Message)
    (out : List Message) : Type 0 where
  pub kept : List Message
  pub fresh : List Message
  pub overlap : IsLongestOverlap history incoming (min (length history) (length incoming)) fresh
  pub capped : IsCapped history fresh max_history kept
  pub joined : out ≡ persona_messages persona ++ (kept ++ fresh)

assemble-IsAssembled :
    (max_history : ℕ) (persona : String) (history incoming : List Message)
    → IsAssembled max_history persona history incoming
        (assemble max_history persona history incoming)
unfolding assemble
assemble-IsAssembled max_history persona history incoming = record {
  kept = cap_history history (drop_overlap history incoming) max_history;
  fresh = drop_overlap history incoming;
  overlap = drop_overlap-IsLongestOverlap history incoming;
  capped = cap_history-IsCapped history (drop_overlap history incoming) max_history;
  joined = refl;
}

length-persona_messages-le : (persona : String) → length (persona_messages persona) ≤ 1
length-persona_messages-le persona = ground arith

-- The context holds at most the persona and max_history messages, or, where the incoming turns
-- alone are more than max_history, the persona and the incoming turns.
length-assemble :
    (max_history : ℕ) (persona : String) (history incoming out : List Message)
    → IsAssembled max_history persona history incoming out
    → length out ≤ 1 + max max_history (length incoming)
length-assemble max_history persona history incoming out a =
    let kept = a.kept in
    let fresh = a.fresh in
    rw a.joined (
      omega (
        arith,
        length-append (persona_messages persona) (kept ++ fresh),
        length-append kept fresh,
        length-persona_messages-le persona,
        a.capped.count,
        ap length a.overlap.dropped,
        length-drop a.overlap.size incoming,
      ))

module _ (repo : ConvRepo) where
  open repo use {State, load_history}

  -- When AssembleContext returns a context, the repository loaded the conversation's history, and
  -- the context is the persona as the leading system message (where it is not empty), then the
  -- newest stored messages, as many as the cap leaves room for, then the incoming turns without
  -- those that repeat the end of the history; no fresh turn is dropped. Its length is bounded.
  pub assemble_context-IsAssembled :
      (max_history : ℕ) (persona : String) (conv : Conversation) (incoming : List Message)
      (s : State) {out : List Message}
      → (assemble_context repo max_history persona conv incoming s).0 ≡ ok out
      → (rows : List MessageRow) × ((load_history conv.id s).0 ≡ ok rows)
        × IsAssembled max_history persona (to_messages rows) incoming out
        × (length out ≤ 1 + max max_history (length incoming))
  unfolding assemble_context
  assemble_context-IsAssembled max_history persona conv incoming s h =
      let (rows, loaded, made) =
        continue-eq-ok (load_history conv.id s).0
          (λ stored. pure (assemble max_history persona (to_messages stored) incoming))
          (load_history conv.id s).1 h in
      let a = assemble-IsAssembled max_history persona (to_messages rows) incoming in
      let same : assemble max_history persona (to_messages rows) incoming ≡ _ = ok-injective made in
      let b = rw same at a in
      (rows, loaded, b, length-assemble max_history persona (to_messages rows) incoming _ b)
