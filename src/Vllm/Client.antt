-- ===== src/Vllm/Client.antt =====
-- backend/internal/vllm/client.go: the calls of the upstream. `encode`, `decode` and `parse_error` are
-- encoding/json on a request, a response and an error body (its message and type), `build` is
-- http.NewRequestWithContext, and `send` the HTTP client's Do, each with `none` for its error. A body
-- that is read, and a message, is its bytes; a decoded text is valid UTF-8. The requests that Do is called with, and the bodies that
-- are opened and closed, stand in the state. The timeouts are left out.
pub mod Laws
use ai_it_dab_com.Prelude.{
  ℕ, suc, ◌*◌, String, Bool, true, false, not, ◌&&◌, Option, none, some, List, [], ◌∷◌, ◌++◌, ◌==◌,
  ltb, leb, within, if◌then◌else◌, trim_space, trim_right, concat, length, take, utf8,
}
use ai_it_dab_com.Vllm.{ChatRequest, ChatResponse, Failure, upstream_error, other, Reply, got, lost}

abbrev pub chat_completions_path : String
chat_completions_path = "/v1/chat/completions"

-- 8 << 10
abbrev pub error_body_limit : ℕ
error_body_limit = 8 * 1024

pub record Client : Type 0 where
  pub base_url : String
  pub api_key : String

abbrev is_slash : ℕ → Bool
is_slash c = within 47 47 c

unfoldable pub new_client : (vllm_url api_key : String) → Client
new_client vllm_url api_key = record { base_url = trim_right is_slash vllm_url; api_key = api_key }

pub record HttpRequest : Type 0 where
  pub url : String
  pub content_type : String
  pub accept : String
  pub authorization : String
  pub body : String

pub record HttpResponse : Type 0 where
  pub status_code : ℕ
  pub body : List ℕ

-- What the calls do: the requests that Do is called with, and how many response bodies were opened and closed.
pub record Exchange : Type 0 where
  pub sent : List HttpRequest
  pub opened : ℕ
  pub closed : ℕ

unfoldable pub truncate : String → ℕ → List ℕ
truncate s n = let t = utf8 (trim_space s) in if ltb n (length t) then take n t else t

abbrev pub close : Exchange → Exchange
close x = record x { closed = suc x.closed }

module _ (parse_error : List ℕ → Option (String × String)) where
  abbrev of_parsed : Option (String × String) → List ℕ
  of_parsed none = utf8 "upstream error"
  of_parsed (some (message, kind)) =
      if not (message == "")
      then truncate message 200
      else if not (kind == "")
      then truncate kind 200
      else utf8 "upstream error"

  unfoldable pub sanitize_message : List ℕ → List ℕ
  sanitize_message body = of_parsed (parse_error body)

  unfoldable pub upstream_status_error : HttpResponse → Option Failure
  upstream_status_error resp =
      if leb 200 resp.status_code && ltb resp.status_code 300
      then none
      else some
          (upstream_error resp.status_code (sanitize_message (take error_body_limit resp.body)))

  module _ (encode : ChatRequest → Option String) (build : (url : String) → Option String)
      (send : HttpRequest → Option HttpResponse) where
    -- The client's request, with the shared secret.
    abbrev pub authorized : Client → String → String → HttpRequest
    authorized c url body = record {
      url = url;
      content_type = "application/json";
      accept = "application/json";
      authorization = concat ("Bearer " ∷ c.api_key ∷ []);
      body = body;
    }

    abbrev pub answered : Option HttpResponse → Exchange → Reply HttpResponse × Exchange
    answered none x = (lost other, x)
    answered (some resp) x = (got resp, record x { opened = suc x.opened })

    abbrev pub issue : HttpRequest → Exchange → Reply HttpResponse × Exchange
    issue r x = answered (send r) (record x { sent = x.sent ++ r ∷ [] })

    abbrev pub built : Client → String → Option String → Exchange → Reply HttpResponse × Exchange
    built c body none x = (lost other, x)
    built c body (some url) x = issue (authorized c url body) x

    abbrev pub encoded : Client → Option String → Exchange → Reply HttpResponse × Exchange
    encoded c none x = (lost other, x)
    encoded c (some body) x =
        built c body (build (concat (c.base_url ∷ chat_completions_path ∷ []))) x

    -- do
    unfoldable pub post : Client → ChatRequest → Exchange → Reply HttpResponse × Exchange
    post c req x = encoded c (encode req) x

    module _ (decode : List ℕ → Option ChatResponse) where
      abbrev pub decoded : Option ChatResponse → Reply ChatResponse
      decoded none = lost other
      decoded (some out) = got out

      abbrev pub completed : HttpResponse → Option Failure → Reply ChatResponse
      completed resp (some e) = lost e
      completed resp none = decoded (decode resp.body)

      abbrev pub after_post : Reply HttpResponse × Exchange → Reply ChatResponse × Exchange
      after_post (lost e, x) = (lost e, x)
      after_post (got resp, x) = (completed resp (upstream_status_error resp), close x)

      unfoldable pub complete : Client → ChatRequest → Exchange → Reply ChatResponse × Exchange
      complete c req x = after_post (post c (record req { stream = false }) x)

    -- The stream's body, which is left open, or an error with the body closed.
    abbrev pub opened : HttpResponse → Option Failure → Exchange → Reply HttpResponse × Exchange
    opened resp (some e) x = (lost e, close x)
    opened resp none x = (got resp, x)

    abbrev pub after_open : Reply HttpResponse × Exchange → Reply HttpResponse × Exchange
    after_open (lost e, x) = (lost e, x)
    after_open (got resp, x) = opened resp (upstream_status_error resp) x

    unfoldable pub stream : Client → ChatRequest → Exchange → Reply HttpResponse × Exchange
    stream c req x = after_open (post c (record req { stream = true }) x)
