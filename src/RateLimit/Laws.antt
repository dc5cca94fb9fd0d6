-- ===== src/RateLimit/Laws.antt =====
-- backend/internal/ratelimit/ratelimit.go: what one call of allow does to the limiter's map.
use ai_it_dab_com.Prelude.{
  ℕ, String, ◌≡◌, ◌≢◌, ◌-◌, ◌⊎◌, refl, sym, ap, ◌∙◌, Bool, true, false, Option, none, some, List,
  [], ◌∷◌, arith, eq_iff, ◌==◌, ltb, Bool-cases, Option-cases, inl, inr, if◌then◌else◌,
}
use ai_it_dab_com.Prelude.Int.{ℤ, positive}
use ai_it_dab_com.RateLimit.{
  Bucket, Entry, LimiterSet, passed, too_many_requests, retry_after, stale_after, lookup, put,
  fresh_ones, sweep, bucket_or_new, allow, per_key,
}

module _ {Limiter : Type 0} where
  -- The entries are a map: no two have one key.
  abbrev pub IsMap : List (Entry Limiter) → Type 0
  IsMap [] = Unit
  IsMap (e ∷ es) = (lookup e.key es ≡ none) × IsMap es

  -- A bucket that was last seen more than ten minutes ago is forgotten.
  abbrev pub unless_idle : ℕ → Option (Bucket Limiter) → Option (Bucket Limiter)
  unless_idle now none = none
  unless_idle now (some b) = if ltb stale_after (now - b.seen) then none else some b

  -- The key's bucket at a call, which forgets idle buckets where the last sweep is ten minutes old.
  abbrev pub held : ℕ → LimiterSet Limiter → String → Option (Bucket Limiter)
  held now s key =
      if ltb (now - s.last_sweep) stale_after
      then lookup key s.buckets
      else unless_idle now (lookup key s.buckets)

  lookup-put_ne :
      (key j : String) (b : Bucket Limiter) (es : List (Entry Limiter))
      → key ≢ j
      → lookup j (put key b es) ≡ lookup j es
  lookup-put_ne key j b [] n = ground (arith, eq_iff key j)
  lookup-put_ne key j b (e ∷ es) n =
      ground (arith, lookup-put_ne key j b es, eq_iff key j, eq_iff e.key key, eq_iff e.key j)

  lookup-put :
      (key : String) (b : Bucket Limiter) (es : List (Entry Limiter))
      → lookup key (put key b es) ≡ some b
  lookup-put key b [] = ground (arith, eq_iff key key)
  lookup-put key b (e ∷ es) = ground (arith, lookup-put key b es, eq_iff key key)

  put-IsMap :
      (key : String) (b : Bucket Limiter) (es : List (Entry Limiter))
      → IsMap es
      → IsMap (put key b es)
  put-IsMap key b [] h = (refl, tt)
  put-IsMap key b (e ∷ es) (new, rest) = elim (Bool-cases (e.key == key)) [
    | inl same ↦ rw same (ap (λ k. lookup k es) (sym ((eq_iff e.key key).0 same)) ∙ new, rest)
    | inr other ↦ rw other (
      lookup-put_ne key e.key b es (λ p. ground (arith, eq_iff e.key key)) ∙ new,
      put-IsMap key b es rest,
    )
  ]

  lookup-fresh_ones :
      (now : ℕ) (j : String) (es : List (Entry Limiter))
      → IsMap es
      → lookup j (fresh_ones now es) ≡ unless_idle now (lookup j es)
  lookup-fresh_ones now j [] h = refl
  lookup-fresh_ones now j (e ∷ es) (new, rest) =
      ground (arith, lookup-fresh_ones now j es rest, eq_iff e.key j)

  fresh_ones-IsMap : (now : ℕ) (es : List (Entry Limiter)) → IsMap es → IsMap (fresh_ones now es)
  fresh_ones-IsMap now [] h = h
  fresh_ones-IsMap now (e ∷ es) (new, rest) =
      elim (Bool-cases (ltb stale_after (now - e.bucket.seen))) [
        | inl idle ↦ rw idle (fresh_ones-IsMap now es rest)
        | inr used ↦ rw used (
          lookup-fresh_ones now e.key es rest ∙ ap (unless_idle now) new,
          fresh_ones-IsMap now es rest,
        )
      ]

  lookup-sweep :
      (now : ℕ) (j : String) (s : LimiterSet Limiter)
      → IsMap s.buckets
      → lookup j (sweep now s).buckets ≡ held now s j
  unfolding sweep
  lookup-sweep now j s h = ground (arith, lookup-fresh_ones now j s.buckets h)

  sweep-IsMap : (now : ℕ) (s : LimiterSet Limiter) → IsMap s.buckets → IsMap (sweep now s).buckets
  unfolding sweep
  sweep-IsMap now s h = elim (Bool-cases (ltb (now - s.last_sweep) stale_after)) [
    | inl early ↦ rw early h
    | inr due ↦ rw due (fresh_ones-IsMap now s.buckets h)
  ]

  module _ (new_limiter : Limiter) (allow_at : ℕ → Limiter → Bool × Limiter) where
    -- In a map, where no two entries have one key: a request under a key is let in exactly where the
    -- key's own token bucket lets it in: the one that the map has for the key, or a new one where it
    -- has none or the call's sweep forgets it, which it does with a bucket idle for more than ten
    -- minutes, where the last sweep is ten minutes old. Then the key has that bucket with the token
    -- taken, seen now; every other key has the bucket it had, except where the sweep forgets it; and
    -- it is still a map.
    pub allow-isolated :
        (key : String) (now : ℕ) (s : LimiterSet Limiter)
        → IsMap s.buckets
        → let (allowed, t) = allow new_limiter allow_at key now s in
          let used = allow_at now (bucket_or_new new_limiter allow_at (held now s key)) in
          (allowed ≡ used.0)
          × (lookup key t.buckets ≡ some (record { lim = used.1; seen = now }))
          × ((j : String) → key ≢ j → lookup j t.buckets ≡ held now s j)
          × IsMap t.buckets
    unfolding allow
    allow-isolated key now s h = rw (sym (lookup-sweep now key s h)) (
        let lim = bucket_or_new new_limiter allow_at (lookup key (sweep now s).buckets) in
        let es = (sweep now s).buckets in
        (
          refl,
          lookup-put key (record { lim = (allow_at now lim).1; seen = now }) es,
          λ j other.
              lookup-put_ne key j (record { lim = (allow_at now lim).1; seen = now }) es other
              ∙ lookup-sweep now j s h,
          put-IsMap key (record { lim = (allow_at now lim).1; seen = now }) es
              (sweep-IsMap now s h),
        ))

    -- The middleware on a key: it is off for a rate that is not positive and for an empty key, and else
    -- it is allow's verdict.
    pub per_key-cases :
        (rpm : ℤ) (key : String) (now : ℕ) (s : LimiterSet Limiter)
        → let (v, t) = per_key new_limiter allow_at rpm key now s in
          (((positive rpm ≡ none) ⊎ (key ≡ "")) × (v ≡ passed) × (t ≡ s))
          ⊎ ((n : ℕ) × (positive rpm ≡ some n)
              × (key ≢ "")
              × (let (allowed, s') = allow new_limiter allow_at key now s in
                  (t ≡ s')
                  × (((allowed ≡ true) × (v ≡ passed))
                      ⊎ ((allowed ≡ false) × (v ≡ too_many_requests (retry_after n))))))
    unfolding per_key
    per_key-cases rpm key now s = elim (Option-cases (positive rpm)) [
      | inl off ↦ rw (per_key, off) (inl (inl refl, refl, refl))
      | inr (n, on) ↦ elim (Bool-cases (key == "")) [
        | inl blank ↦ rw (per_key, on, blank) (inl (inr ((eq_iff key "").0 blank), refl, refl))
        | inr named ↦ elim (Bool-cases (allow new_limiter allow_at key now s).0) [
          | inl taken ↦
              rw (per_key, on, named, taken)
                (inr (n, refl, (λ e. ground (arith, eq_iff key "")), (refl, inl (refl, refl))))
          | inr empty ↦
              rw (per_key, on, named, empty)
                (inr (n, refl, (λ e. ground (arith, eq_iff key "")), (refl, inr (refl, refl))))
        ]
      ]
    ]
