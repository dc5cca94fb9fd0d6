-- ===== src/HttpServer/Health.antt =====
-- backend/internal/httpserver/health.go. A check that runs out of its time is one that fails; what
-- the dependencies answer is a value, `none` where there is no dependency. The HTTP client is the
-- function that gives the status of a GET, or no response.
use Prim.Native.String
use mathlib.Core.Option.{some-injective}
use ai_it_dab_com.Prelude.{
  ℕ, ◌*◌, String, ◌≡◌, refl, ◌↔◌, ◌⊎◌, Bool, true, false, not, ◌||◌, Bool-cases, inl, inr, Option,
  none, some, ltb, leb, arith, ◌≤◌, ◌<◌, within, if◌then◌else◌, trim_right,
}
use ai_it_dab_com.Prelude.Int.{ℤ, positive}

-- The result of a Ping or of the probe: whether it succeeded.
pub record HealthDeps : Type 0 where
  pub db : Option Bool
  pub vllm_probe : Option Bool
  pub version : String

-- The bodies of GET /healthz and GET /readyz.
pub record Liveness : Type 0 where
  pub code : ℕ
  pub status : String
  pub version : String

pub record Readiness : Type 0 where
  pub code : ℕ
  pub status : String
  pub postgres : String
  pub vllm : String
  pub version : String

-- The bound on each check: the default is 2 seconds.
pub timeout_of : ℤ → ℕ
timeout_of t = elim (positive t) [ none ↦ 2 * 1000000000 | some n ↦ n ]

pub liveness : String → Liveness
liveness version = record { code = 200; status = "ok"; version = version }

-- The check's word, and whether it leaves the server ready.
abbrev pub postgres_check : Option Bool → String × Bool
postgres_check none = ("unconfigured", false)
postgres_check (some false) = ("unreachable", false)
postgres_check (some true) = ("ok", true)

abbrev pub vllm_check : Option Bool → String
vllm_check none = "skipped"
vllm_check (some false) = "unreachable"
vllm_check (some true) = "ok"

unfoldable pub readiness : HealthDeps → Readiness
readiness deps =
    let (postgres, ready) = postgres_check deps.db in
    record {
      code = if ready then 200 else 503;
      status = if ready then "ready" else "not_ready";
      postgres = postgres;
      vllm = vllm_check deps.vllm_probe;
      version = deps.version;
    }

abbrev pub is_slash : ℕ → Bool
is_slash c = within 47 47 c

unfoldable pub health_url : (vllm_url : String) → String
health_url vllm_url = Prim.Native.String.◌++◌ (trim_right is_slash vllm_url) "/health"

abbrev reachable : Option ℕ → Bool
reachable none = false
reachable (some code) = not (ltb code 200 || leb 300 code)

reachable_iff :
    (o : Option ℕ)
    → (vllm_check (some (reachable o)) ≡ "ok")
      ↔ ((code : ℕ) × (o ≡ some code) × (200 ≤ code) × (code < 300))
reachable_iff none = (λ h. cc h, λ (code, e, _, _). cc e)
reachable_iff (some code) = elim (Bool-cases (reachable (some code))) [
  | inl near ↦ (λ h. (code, refl, ground arith, ground arith), λ h. rw near refl)
  | inr far ↦
      (λ h. cc (rw far at h), λ (c, e, lo, hi). absurd (ground (arith, some-injective code c e)))
]

-- NewVLLMProbe: whether the upstream is reachable.
module _ (get : String → Option ℕ) where
  unfoldable pub vllm_probe : (vllm_url : String) → Bool
  vllm_probe vllm_url = reachable (get (health_url vllm_url))

  -- Readiness is decided by the database alone: it is 200 exactly when the database answers, and 503
  -- otherwise, whatever the upstream's probe says; the probe shows in the body only, where the
  -- upstream is ok exactly when a GET of its health page gives a 2xx status.
  pub readiness_iff :
      (db : Option Bool) (vllm_url version : String)
      → let body =
          readiness
            (record { db = db; vllm_probe = some (vllm_probe vllm_url); version = version }) in
        ((body.code ≡ 200) ↔ (db ≡ some true))
        × ((body.code ≡ 200) ⊎ (body.code ≡ 503))
        × ((body.vllm ≡ "ok")
            ↔ ((code : ℕ) × (get (health_url vllm_url) ≡ some code) × (200 ≤ code) × (code < 300)))
  unfolding readiness vllm_probe
  readiness_iff none vllm_url version =
      ((λ h. absurd (omega arith), λ h. cc h), inr refl, reachable_iff (get (health_url vllm_url)))
  readiness_iff (some true) vllm_url version =
      ((λ h. refl, λ h. refl), inl refl, reachable_iff (get (health_url vllm_url)))
  readiness_iff (some false) vllm_url version =
      ((λ h. absurd (omega arith), λ h. cc h), inr refl, reachable_iff (get (health_url vllm_url)))
