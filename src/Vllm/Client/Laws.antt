-- ===== src/Vllm/Client/Laws.antt =====
-- backend/internal/vllm/client.go: how the calls of the upstream end.
use mathlib.Core.Path.{subst}
use ai_it_dab_com.Prelude.{
  ℕ, suc, ◌+◌, ◌≤◌, ◌<◌, String, ◌≡◌, ◌⊎◌, refl, sym, true, false, ◌&&◌, Bool-cases, Option-cases,
  inl, inr, Option, none, some, [], ◌∷◌, ◌++◌, arith, ltb, leb, ◌==◌, concat, trim_space, length,
  take, length-take, utf8, List,
}
use ai_it_dab_com.Vllm.{ChatRequest, ChatResponse, Failure, upstream_error, other, Reply, got, lost}
use ai_it_dab_com.Vllm.Client.{
  Client, HttpRequest, HttpResponse, Exchange, truncate, of_parsed, sanitize_message,
  upstream_status_error, authorized, post, after_post, complete, after_open, stream,
  chat_completions_path, error_body_limit,
}

truncate_bound : (s : String) (n : ℕ) → length (truncate s n) ≤ n
unfolding truncate
truncate_bound s n = ground (arith, length-take n (utf8 (trim_space s)))

generic_bound : length (utf8 "upstream error") ≤ 200
unfolding utf8
generic_bound = omega arith

-- What a failure tells of the upstream: a status that is not 2xx and a short message, if it has one.
abbrev pub IsShort : Failure → Type 0
IsShort (upstream_error code message) = ((code < 200) ⊎ (300 ≤ code)) × (length message ≤ 200)
IsShort other = Unit

module _ (parse_error : List ℕ → Option (String × String)) where
  of_parsed_bound : (o : Option (String × String)) → length (of_parsed parse_error o) ≤ 200
  of_parsed_bound none = generic_bound
  of_parsed_bound (some (message, kind)) = elim (Bool-cases (message == "")) [
    | inl silent ↦ elim (Bool-cases (kind == "")) [
      | inl untyped ↦ rw (silent, untyped) generic_bound
      | inr typed ↦ rw (silent, typed) (truncate_bound kind 200)
    ]
    | inr said ↦ rw said (truncate_bound message 200)
  ]

  sanitize_bound : (body : List ℕ) → length (sanitize_message parse_error body) ≤ 200
  unfolding sanitize_message
  sanitize_bound body = of_parsed_bound (parse_error body)

  module _ (encode : ChatRequest → Option String) (build : (url : String) → Option String)
      (send : HttpRequest → Option HttpResponse) where
    -- Do was not called, or once with the request's JSON under the client's secret.
    abbrev pub HasSent : Client → ChatRequest → Exchange → Exchange → Type 0
    HasSent c req x t =
        (t.sent ≡ x.sent)
        ⊎ ((r : HttpRequest) × (t.sent ≡ x.sent ++ r ∷ [])
            × (encode req ≡ some r.body)
            × (build (concat (c.base_url ∷ chat_completions_path ∷ [])) ≡ some r.url)
            × (r.authorization ≡ concat ("Bearer " ∷ c.api_key ∷ [])))

    -- How a request left the state: a response has its body open.
    abbrev IsPosted : Client → ChatRequest → Exchange → Reply HttpResponse × Exchange → Type 0
    IsPosted c req x (got resp, t) =
        (t.opened ≡ suc x.opened) × (t.closed ≡ x.closed) × HasSent c req x t
    IsPosted c req x (lost e, t) =
        (t.opened ≡ x.opened) × (t.closed ≡ x.closed) × HasSent c req x t × (e ≡ other)

    post_lem :
        (c : Client) (req : ChatRequest) (x : Exchange)
        → IsPosted c req x (post parse_error encode build send c req x)
    unfolding post
    post_lem c req x = elim (Option-cases (encode req)) [
      | inl unwritten ↦ rw unwritten (refl, refl, inl refl, refl)
      | inr (body, written) ↦
          elim (Option-cases (build (concat (c.base_url ∷ chat_completions_path ∷ [])))) [
            | inl bad ↦ rw (written, bad) (refl, refl, inl refl, refl)
            | inr (url, good) ↦
                let r = authorized parse_error encode build send c url body in
                elim (Option-cases (send r)) [
                  | inl down ↦
                      rw (written, good, down)
                        (refl, refl, inr (r, refl, written, good, refl), refl)
                  | inr (resp, up) ↦
                      rw (written, good, up) (refl, refl, inr (r, refl, written, good, refl))
                ]
          ]
    ]

    -- No body stays open, and an error is short.
    abbrev pub IsOver : {A : Type 0} → Exchange → Reply A × Exchange → Type 0
    IsOver x (got a, t) = t.opened + x.closed ≡ x.opened + t.closed
    IsOver x (lost e, t) = (t.opened + x.closed ≡ x.opened + t.closed) × IsShort e

    -- The one body that stays open is the caller's to close.
    abbrev pub IsOpen : Exchange → Reply HttpResponse × Exchange → Type 0
    IsOpen x (got resp, t) =
        (t.opened ≡ suc x.opened)
        × (t.closed ≡ x.closed)
        × (200 ≤ resp.status_code)
        × (resp.status_code < 300)
    IsOpen x (lost e, t) = (t.opened + x.closed ≡ x.opened + t.closed) × IsShort e

    after_open_lem :
        (c : Client) (req : ChatRequest) (x : Exchange) (r : Reply HttpResponse × Exchange)
        → IsPosted c req x r
        → IsOpen x (after_open parse_error encode build send r)
          × HasSent c req x (after_open parse_error encode build send r).1
    unfolding upstream_status_error
    after_open_lem c req x (lost e, t) (o, k, sent, kind) =
        ((omega arith, subst IsShort (sym kind) tt), sent)
    after_open_lem c req x (got resp, t) (o, k, sent) =
        elim (Bool-cases (leb 200 resp.status_code && ltb resp.status_code 300)) [
          | inl fine ↦ rw fine ((o, k, ground arith, ground arith), sent)
          | inr bad ↦ rw bad (
            (omega arith, (ground arith, sanitize_bound (take error_body_limit resp.body))),
            sent,
          )
        ]

    module _ (decode : List ℕ → Option ChatResponse) where
      after_post_lem :
          (c : Client) (req : ChatRequest) (x : Exchange) (r : Reply HttpResponse × Exchange)
          → IsPosted c req x r
          → IsOver x (after_post parse_error encode build send decode r)
            × HasSent c req x (after_post parse_error encode build send decode r).1
      unfolding upstream_status_error
      after_post_lem c req x (lost e, t) (o, k, sent, kind) =
          ((omega arith, subst IsShort (sym kind) tt), sent)
      after_post_lem c req x (got resp, t) (o, k, sent) =
          elim (Bool-cases (leb 200 resp.status_code && ltb resp.status_code 300)) [
            | inl fine ↦ elim (Option-cases (decode resp.body)) [
              | inl garbled ↦ rw (fine, garbled) ((omega arith, tt), sent)
              | inr (out, read) ↦ rw (fine, read) (omega arith, sent)
            ]
            | inr bad ↦ rw bad (
              (omega arith, (ground arith, sanitize_bound (take error_body_limit resp.body))),
              sent,
            )
          ]

      -- Complete closes the response's body on every path, and Stream on every path but its success,
      -- where the one open body is a 2xx response's. An error of the upstream carries a status that is
      -- not 2xx and a message of 200 bytes at most. The HTTP client's Do is called at most once, with the
      -- JSON of the request with the streaming flag of the call, to the client's URL, under its secret.
      pub complete-stream :
          (c : Client) (req : ChatRequest) (x : Exchange)
          → (IsOver x (complete parse_error encode build send decode c req x)
              × HasSent c
                  (record req { stream = false })
                  x
                  (complete parse_error encode build send decode c req x).1)
            × (IsOpen x (stream parse_error encode build send c req x)
                × HasSent c
                    (record req { stream = true })
                    x
                    (stream parse_error encode build send c req x).1)
      unfolding complete stream
      complete-stream c req x = (
        after_post_lem c (record req { stream = false }) x
            (post parse_error encode build send c (record req { stream = false }) x)
            (post_lem c (record req { stream = false }) x),
        after_open_lem c (record req { stream = true }) x
            (post parse_error encode build send c (record req { stream = true }) x)
            (post_lem c (record req { stream = true }) x),
      )
