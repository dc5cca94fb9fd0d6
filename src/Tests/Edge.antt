-- ===== src/Tests/Edge.antt =====
-- The middleware: the rate limiter and CORS.
use ai_it_dab_com.Prelude.{
  ℕ, zero, suc, String, ◌≡◌, refl, ◌≢◌, ◌↔◌, Bool, true, false, some, [], ◌∷◌, ◌==◌, any,
}
use ai_it_dab_com.RateLimit.{LimiterSet, lookup, bucket_or_new, allow}
use ai_it_dab_com.RateLimit.Laws.{IsMap, held, allow-isolated}
use ai_it_dab_com.Cors.{Request, cors}
use ai_it_dab_com.Cors.Laws.{sends, cors-grants_iff}

-- A limiter that counts the tokens left.
abbrev allow_at : ℕ → ℕ → Bool × ℕ
allow_at now zero = (false, 0)
allow_at now (suc n) = (true, n)

-- Two buckets, of which the call's sweep forgets the older.
abbrev limiters : LimiterSet ℕ
limiters = record {
  buckets =
      record { key = "10.0.0.1"; bucket = record { lim = 0; seen = 4 } }
      ∷ record { key = "10.0.0.2"; bucket = record { lim = 0; seen = 600000000005 } }
      ∷ [];
  last_sweep = 0;
}

allow-isolated_example :
    let (allowed, t) = allow 5 allow_at "10.0.0.2" 600000000009 limiters in
    let used =
      allow_at 600000000009 (bucket_or_new 5 allow_at (held 600000000009 limiters "10.0.0.2")) in
    (allowed ≡ used.0)
    × (lookup "10.0.0.2" t.buckets ≡ some (record { lim = used.1; seen = 600000000009 }))
    × ((j : String) → "10.0.0.2" ≢ j → lookup j t.buckets ≡ held 600000000009 limiters j)
    × IsMap t.buckets
allow-isolated_example =
    allow-isolated 5 allow_at "10.0.0.2" 600000000009 limiters (refl, (refl, tt))

abbrev preflight : Request
preflight = record {
  method = "OPTIONS";
  origin = "https://admin.example";
  request_method = "PATCH";
  request_headers = "";
}

cors-grants_iff_example :
    let headers = (cors ("https://admin.example" ∷ []) preflight).headers in
    let listed =
      (preflight.origin ≢ "")
      × (any (λ o. o == preflight.origin) ("https://admin.example" ∷ []) ≡ true) in
    ((origin : String)
      → (sends "Access-Control-Allow-Origin" origin headers ≡ true)
        ↔ ((preflight.origin ≡ origin) × listed))
    × ((sends "Access-Control-Allow-Credentials" "true" headers ≡ true) ↔ listed)
cors-grants_iff_example = cors-grants_iff ("https://admin.example" ∷ []) preflight

abbrev starred : Request
starred = record { method = "GET"; origin = "*"; request_method = ""; request_headers = "" }

-- `*` in the allowlist is granted to the origin `*`.
star_is_emitted : sends "Access-Control-Allow-Origin" "*" (cors ("*" ∷ []) starred).headers ≡ true
unfolding cors
star_is_emitted = refl
