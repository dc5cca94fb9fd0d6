-- ===== src/Conversation/Ordering.antt =====
-- LoadHistory's ORDER BY created_at, id, against the order in which rows were appended.
use ai_it_dab_com.Prelude.{
  ℕ, suc, ◌+◌, ◌<◌, String, ◌≡◌, refl, ap, ◌≢◌, ◌∙◌, sym, Bool-cases, inl, inr, List, [], ◌∷◌, ◌++◌,
  arith, eq_iff, All, All-append,
}
use mathlib.Core.List.{append_assoc, append-nil}
use ai_it_dab_com.Conversation.{
  MessageRow, NewMessage, new_row, ordered, insert_row, sort_from, rows_of, history_rows,
}

-- What a batch inserts: message number i with the next id and the stamp ts + i.
abbrev pub stamped : (ℕ → String) → ℕ → String → ℕ → List NewMessage → List MessageRow
stamped uuid serial id ts [] = []
stamped uuid serial id ts (m ∷ ms) =
    new_row uuid serial id m ts ∷ stamped uuid (suc serial) id (ts + 1) ms

-- Every row was created before the time `ts`.
abbrev pub OlderThan : ℕ → List MessageRow → Type 0
OlderThan ts = All (λ m. m.created_at < ts)

OlderThan-weaken : (ts : ℕ) (ms : List MessageRow) → OlderThan ts ms → OlderThan (ts + 1) ms
OlderThan-weaken ts [] h = tt
OlderThan-weaken ts (m ∷ ms) (p, h) = (omega arith, OlderThan-weaken ts ms h)

insert_row_newest :
    (m : MessageRow) (acc : List MessageRow)
    → OlderThan m.created_at acc
    → insert_row m acc ≡ acc ++ m ∷ []
unfolding insert_row
insert_row_newest m [] h = refl
insert_row_newest m (n ∷ ns) (p, h) = ground (arith, insert_row_newest m ns h)

insert_row-OlderThan :
    (ts : ℕ) (m : MessageRow) (acc : List MessageRow)
    → m.created_at < ts
    → OlderThan ts acc
    → OlderThan ts (insert_row m acc)
unfolding insert_row
insert_row-OlderThan ts m [] p h = (p, tt)
insert_row-OlderThan ts m (n ∷ ns) p (q, h) = elim (Bool-cases (ordered n m)) [
  | inl e ↦ rw e (q, insert_row-OlderThan ts m ns p h)
  | inr e ↦ rw e (p, (q, h))
]

sort_from-OlderThan :
    (ts : ℕ) (acc ms : List MessageRow)
    → OlderThan ts acc
    → OlderThan ts ms
    → OlderThan ts (sort_from acc ms)
unfolding sort_from
sort_from-OlderThan ts acc [] h k = h
sort_from-OlderThan ts acc (m ∷ ms) h (p, k) =
    sort_from-OlderThan ts (insert_row m acc) ms (insert_row-OlderThan ts m acc p h) k

sort_from-append :
    (acc xs ys : List MessageRow) → sort_from acc (xs ++ ys) ≡ sort_from (sort_from acc xs) ys
unfolding sort_from
sort_from-append acc [] ys = refl
sort_from-append acc (x ∷ xs) ys = sort_from-append (insert_row x acc) xs ys

module _ (uuid : ℕ → String) where
  sort_from-stamped :
      (serial : ℕ) (id : String) (ts : ℕ) (ms : List NewMessage) (acc : List MessageRow)
      → OlderThan ts acc
      → sort_from acc (stamped uuid serial id ts ms) ≡ acc ++ stamped uuid serial id ts ms
  unfolding sort_from
  sort_from-stamped serial id ts [] acc h = sym (append-nil acc)
  sort_from-stamped serial id ts (m ∷ ms) acc h =
      let row = new_row uuid serial id m ts in
      let older : OlderThan (ts + 1) (acc ++ row ∷ []) =
        All-append (λ n. n.created_at < ts + 1) acc (row ∷ []) (OlderThan-weaken ts acc h)
          (omega arith, tt) in
      rw (sort_from, insert_row_newest row acc h)
        (sort_from-stamped (suc serial) id (ts + 1) ms (acc ++ row ∷ []) older
          ∙ append_assoc acc (row ∷ []) (stamped uuid (suc serial) id (ts + 1) ms))

  rows_of-stamped :
      (serial : ℕ) (id : String) (ts : ℕ) (ms : List NewMessage)
      → rows_of id (stamped uuid serial id ts ms) ≡ stamped uuid serial id ts ms
  unfolding rows_of
  rows_of-stamped serial id ts [] = refl
  rows_of-stamped serial id ts (m ∷ ms) =
      ground (arith, eq_iff id id, rows_of-stamped (suc serial) id (ts + 1) ms)

  rows_of-stamped_ne :
      (serial : ℕ) (id j : String) (ts : ℕ) (ms : List NewMessage)
      → id ≢ j
      → rows_of j (stamped uuid serial id ts ms) ≡ []
  unfolding rows_of
  rows_of-stamped_ne serial id j ts [] h = refl
  rows_of-stamped_ne serial id j ts (m ∷ ms) h =
      ground (arith, eq_iff id j, rows_of-stamped_ne (suc serial) id j (ts + 1) ms h)

rows_of-append :
    (id : String) (xs ys : List MessageRow) → rows_of id (xs ++ ys) ≡ rows_of id xs ++ rows_of id ys
unfolding rows_of
rows_of-append id [] ys = refl
rows_of-append id (x ∷ xs) ys = ground (arith, rows_of-append id xs ys)

module _ (uuid : ℕ → String) where
  -- A batch stamped after every stored row of its conversation is answered behind them.
  pub history_rows-append :
      (serial : ℕ) (id : String) (ts : ℕ) (ms : List NewMessage) (old : List MessageRow)
      → OlderThan ts (rows_of id old)
      → history_rows id (old ++ stamped uuid serial id ts ms)
        ≡ history_rows id old ++ stamped uuid serial id ts ms
  unfolding history_rows
  history_rows-append serial id ts ms old h =
      rw
        (rows_of-append id old (stamped uuid serial id ts ms), rows_of-stamped uuid serial id ts ms)
        (sort_from-append [] (rows_of id old) (stamped uuid serial id ts ms)
          ∙ sort_from-stamped uuid serial id ts ms (sort_from [] (rows_of id old))
              (sort_from-OlderThan ts [] (rows_of id old) tt h))

  -- The history of another conversation is not touched.
  pub history_rows-append_ne :
      (serial : ℕ) (id j : String) (ts : ℕ) (ms : List NewMessage) (old : List MessageRow)
      → id ≢ j
      → history_rows j (old ++ stamped uuid serial id ts ms) ≡ history_rows j old
  unfolding history_rows
  history_rows-append_ne serial id j ts ms old h =
      rw
        (
          rows_of-append j old (stamped uuid serial id ts ms),
          rows_of-stamped_ne uuid serial id j ts ms h,
        )
        (ap (sort_from []) (append-nil (rows_of j old)))
