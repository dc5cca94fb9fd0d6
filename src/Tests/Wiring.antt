-- ===== src/Tests/Wiring.antt =====
-- The upstream's client, the gateway's route, the migration files and the server's life.
use Prim.Native.String
use ai_it_dab_com.Prelude.{
  ℕ, zero, suc, String, ◌≡◌, ◌≢◌, ◌⊎◌, refl, Bool, true, false, Option, none, some, List, [], ◌∷◌,
  ◌++◌, any, utf8, trim_space, trim_left, trim_right,
}
use ai_it_dab_com.Prelude.Int.{pos, positive}
use ai_it_dab_com.Vllm.{ChatRequest, ChatResponse}
use ai_it_dab_com.Vllm.Client.{Client, HttpRequest, HttpResponse, Exchange, complete, stream}
use ai_it_dab_com.Vllm.Client.Laws.{IsOver, IsOpen, HasSent, complete-stream}
use ai_it_dab_com.Gateway.Chat.{Credential}
use ai_it_dab_com.Gateway.Auth.{Headers, refused, require_credential}
use ai_it_dab_com.Gateway.Auth.Laws.{IsBacked}
use ai_it_dab_com.RateLimit.{allow, retry_after}
use ai_it_dab_com.App.{Serving, gateway_route}
use ai_it_dab_com.App.Laws.{gateway_route-cases}
use ai_it_dab_com.Migrate.Scripts.{double_quotes, read_literal, read_literal-double_quotes}
use ai_it_dab_com.Migrate.Files.{load, loaded}
use ai_it_dab_com.Migrate.Create.{
  stub, created, file_name, base_name, sanitize_name, collapse, create,
}
use ai_it_dab_com.Migrate.Create.RoundTrip.{entry, create-load}
use ai_it_dab_com.Server.{Answers, Event, pool_opened, pool_closed, signalled, run}
use ai_it_dab_com.Server.Laws.{is_pool, IsUsed, run-pool}
use ai_it_dab_com.Tests.Samples.{uuid, parse_uuid, sha256, keys}
use ai_it_dab_com.Tests.Server.{config}

abbrev client : Client
client = record { base_url = "http://vllm"; api_key = "key" }

abbrev question : ChatRequest
question = record {
  model = "llama";
  messages = [];
  stream = false;
  temperature = none;
  top_p = none;
  max_tokens = none;
  stop = [];
}

abbrev fresh : Exchange
fresh = record { sent = []; opened = 0; closed = 0 }

-- An upstream that is overloaded.
abbrev encode : ChatRequest → Option String
encode r = some "{}"

abbrev busy : HttpRequest → Option HttpResponse
busy r = some (record { status_code = 503; body = utf8 "{\"error\":{}}" })

abbrev parse_error : List ℕ → Option (String × String)
parse_error body = some ("", "overloaded")

abbrev decode : List ℕ → Option ChatResponse
decode body = none

complete-stream_example :
    (IsOver parse_error encode some busy fresh
        (complete parse_error encode some busy decode client question fresh)
      × HasSent parse_error encode some busy client question fresh
          (complete parse_error encode some busy decode client question fresh).1)
    × (IsOpen parse_error encode some busy fresh
          (stream parse_error encode some busy client question fresh)
        × HasSent parse_error encode some busy client
            (record question { stream = true })
            fresh
            (stream parse_error encode some busy client question fresh).1)
complete-stream_example = complete-stream parse_error encode some busy decode client question fresh

-- A limiter that counts the tokens left.
abbrev allow_at : ℕ → ℕ → Bool × ℕ
allow_at now zero = (false, 0)
allow_at now (suc n) = (true, n)

abbrev serving : Serving ℕ ℕ
serving = record { keys = keys; limiters = record { buckets = []; last_sweep = 0 }; world = 0 }

abbrev error_status : ℕ → String → String → ℕ
error_status status kind message = status

abbrev limited_status : ℕ → ℕ
limited_status after = 429

abbrev answer : Credential → ℕ → ℕ × ℕ
answer cred w = (200, suc w)

abbrev headers : Headers
headers = record { key_id = "dab_pk_a"; secret = "abc" }

gateway_route-cases_example :
    let (r, t) =
      gateway_route sha256 uuid parse_uuid 5 allow_at error_status limited_status answer
        (pos 60)
        headers
        9
        serving in
    let judged = (require_credential sha256 uuid parse_uuid headers keys).0 in
    ((n : ℕ) × (kind : String) × (message : String) × (judged ≡ refused n kind message)
      × (r ≡ error_status n kind message)
      × (t.limiters ≡ serving.limiters)
      × (t.world ≡ 0))
    ⊎ ((c : Credential) × IsBacked sha256 uuid parse_uuid headers keys c
        × ((((positive (pos 60) ≡ none) ⊎ (c.id ≡ ""))
              × (t.limiters ≡ serving.limiters)
              × (r ≡ (answer c 0).0)
              × (t.world ≡ (answer c 0).1))
            ⊎ ((n : ℕ) × (positive (pos 60) ≡ some n)
                × (c.id ≢ "")
                × (let (allowed, limiters) = allow 5 allow_at c.id 9 serving.limiters in
                    (t.limiters ≡ limiters)
                    × (((allowed ≡ true) × (r ≡ (answer c 0).0) × (t.world ≡ (answer c 0).1))
                        ⊎ ((allowed ≡ false)
                            × (r ≡ limited_status (retry_after n))
                            × (t.world ≡ 0)))))))
gateway_route-cases_example =
    gateway_route-cases sha256 uuid parse_uuid 5 allow_at error_status limited_status answer
      (pos 60) headers 9 serving

abbrev same_text : String → String
same_text s = s

abbrev join : String → String → String
join dir name = name

-- The slug is `add_users`.
create-load_example :
    let slug = sanitize_name same_text " add  users! " in
    let base = base_name "20260606000001" slug in
    (create same_text join "20260606000001" "migrations" " add  users! " true true ≡ (
      created (file_name base "up") (file_name base "down"),
      record { path = file_name base "up"; content = stub base "up" }
          ∷ record { path = file_name base "down"; content = stub base "down" }
          ∷ [],
    ))
    × (load (
          some (
            entry (file_name base "down") (stub base "down")
            ∷ entry (file_name base "up") (stub base "up")
            ∷ []))
        ≡ loaded (
            record {
              version = "20260606000001";
              name = slug;
              up = stub base "up";
              down = stub base "down";
            }
            ∷ []))
unfolding sanitize_name collapse trim_space trim_left trim_right
create-load_example =
    create-load same_text join "20260606000001" "migrations" " add  users! " refl (λ e. cc e)

-- A signal, and a shutdown that does not drain in time.
abbrev answers : Answers
answers = record {
  config = some config;
  config_error = "";
  connect = none;
  migrate = none;
  listen = none;
  wake = signalled;
  shutdown = some "context deadline exceeded";
}

run-pool_example :
    (((run answers).trace ≡ []) × ((e : String) × ((run answers).failure ≡ some e)))
    ⊎ ((mid : List Event) × ((run answers).trace ≡ pool_opened ∷ (mid ++ pool_closed ∷ []))
        × (any is_pool mid ≡ false)
        × IsUsed answers.wake answers.shutdown mid (run answers).failure)
run-pool_example = run-pool answers

-- A name with a quote in it, as the first of two values.
read_literal-double_quotes_example :
    read_literal false (String.◌++◌ (double_quotes "o'brien") (String.◌∷◌ "'" ", 'x')"))
    ≡ ("o'brien", ", 'x')")
read_literal-double_quotes_example = read_literal-double_quotes "o'brien" ", 'x')" refl
