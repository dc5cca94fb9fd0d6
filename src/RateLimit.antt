-- ===== src/RateLimit.antt =====
-- backend/internal/ratelimit/ratelimit.go: the buckets of a limiter, and the middleware on top of it.
--
-- golang.org/x/time/rate is not in the repository: `Limiter` is its type with `new_limiter` for
-- rate.NewLimiter of the set's limit and burst, and `allow_at` for Allow at a time, which gives its
-- verdict and the limiter after it. Times count nanoseconds. The map is an association list, and
-- the lock makes each call one step.
pub mod Laws
use ai_it_dab_com.Prelude.{
  ℕ, zero, suc, ◌+◌, ◌-◌, ◌/◌, String, Bool, true, false, not, ◌&&◌, Option, none, some, List, [],
  ◌∷◌, ◌==◌, ltb, if◌then◌else◌,
}
use ai_it_dab_com.Prelude.Int.{ℤ, positive}

-- staleAfter: ten minutes
abbrev pub stale_after : ℕ
stale_after = 600000000000

pub record Bucket (Limiter : Type 0) : Type 0 where
  pub lim : Limiter
  pub seen : ℕ

pub record Entry (Limiter : Type 0) : Type 0 where
  pub key : String
  pub bucket : Bucket Limiter

pub record LimiterSet (Limiter : Type 0) : Type 0 where
  pub buckets : List (Entry Limiter)
  pub last_sweep : ℕ

-- retryAfter, for a rate of `rpm` requests per minute: the float64 computation gives the whole
-- seconds between two tokens, rounded up, and at least one.
pub retry_after : ℕ → ℕ
retry_after rpm = elim rpm [ zero ↦ 1 | suc n ↦ (60 + n) / suc n ]

-- tooManyRequests: 429 with Retry-After, or the next handler.
pub data Verdict : Type 0 where
  passed : Verdict
  too_many_requests : ℕ → Verdict

-- clientIP, with what net.SplitHostPort made of the remote address.
pub client_ip : String → Option String → String
client_ip remote_addr none = remote_addr
client_ip remote_addr (some host) = host

module _ {Limiter : Type 0} where
  abbrev pub lookup : String → List (Entry Limiter) → Option (Bucket Limiter)
  lookup key [] = none
  lookup key (e ∷ es) = if e.key == key then some e.bucket else lookup key es

  abbrev pub put : String → Bucket Limiter → List (Entry Limiter) → List (Entry Limiter)
  put key b [] = record { key = key; bucket = b } ∷ []
  put key b (e ∷ es) =
      if e.key == key then record { key = key; bucket = b } ∷ es else e ∷ put key b es

  -- The loop that deletes each bucket with now.Sub(b.seen) > staleAfter.
  abbrev pub fresh_ones : ℕ → List (Entry Limiter) → List (Entry Limiter)
  fresh_ones now [] = []
  fresh_ones now (e ∷ es) =
      if ltb stale_after (now - e.bucket.seen) then fresh_ones now es else e ∷ fresh_ones now es

  pub sweep : ℕ → LimiterSet Limiter → LimiterSet Limiter
  sweep now s =
      if ltb (now - s.last_sweep) stale_after
      then s
      else record { buckets = fresh_ones now s.buckets; last_sweep = now }

  module _ (new_limiter : Limiter) (allow_at : ℕ → Limiter → Bool × Limiter) where
    abbrev pub bucket_or_new : Option (Bucket Limiter) → Limiter
    bucket_or_new none = new_limiter
    bucket_or_new (some b) = b.lim

    pub allow : String → ℕ → LimiterSet Limiter → Bool × LimiterSet Limiter
    allow key now s =
        let s' = sweep now s in
        let (allowed, lim) = allow_at now (bucket_or_new (lookup key s'.buckets)) in
        (allowed, record s' { buckets = put key (record { lim = lim; seen = now }) s'.buckets })

    abbrev judge : ℕ → Bool → Verdict
    judge rpm true = passed
    judge rpm false = too_many_requests (retry_after rpm)

    -- PerIP
    pub per_ip : ℤ → String → Option String → ℕ → LimiterSet Limiter → Verdict × LimiterSet Limiter
    per_ip rpm remote_addr host now s = elim (positive rpm) [
      | none ↦ (passed, s)
      | some n ↦ (let (b, t) = allow (client_ip remote_addr host) now s in (judge n b, t))
    ]

    -- A set of limiters for a positive rate; an empty key passes through.
    abbrev pub keyed : Option ℕ → String → ℕ → LimiterSet Limiter → Verdict × LimiterSet Limiter
    keyed none key now s = (passed, s)
    keyed (some n) key now s =
        if key == "" then (passed, s) else (let (b, t) = allow key now s in (judge n b, t))

    -- PerKey
    pub per_key : ℤ → String → ℕ → LimiterSet Limiter → Verdict × LimiterSet Limiter
    per_key rpm = keyed (positive rpm)
