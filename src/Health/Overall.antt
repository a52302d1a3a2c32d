-- ===== src/Health/Overall.antt =====
-- What the statuses of internal/services/health/health.go say of the services.
use mathlib.Core.Bool.{false≢true}
use mathlib.Core.Option.{some-ne-none}
use insight_collector.Prelude.{
  String, Bool, true, false, Option, none, some, ◌≡◌, ◌↔◌, ◌⊎◌, inl, inr, refl, arith, eq_iff,
}
use insight_collector.Health.{Probes, Texts, all_healthy, assess_health, assess_readiness}

module _ (texts : Texts) where
  -- The probes that all three checks like
  abbrev AllRight : Bool → Option String → Option String → Bool → Bool → Type 0
  AllRight ready influx redis client running =
      (ready ≡ true) × (influx ≡ none) × (redis ≡ none) × (client ≡ true) × (running ≡ true)

  abbrev probes_with : Probes → Bool → Option String → Option String → Bool → Bool → Probes
  probes_with p ready influx redis client running = record p {
    influx_ready = ready;
    influx_error = influx;
    redis_error = redis;
    asynq_client = client;
    server_running = running;
  }

  all_healthy_cases :
      (p : Probes) (ready : Bool) (influx redis : Option String) (client running : Bool)
      → let q = probes_with p ready influx redis client running in
        ((all_healthy texts q ≡ true) × AllRight ready influx redis client running)
        ⊎ ((all_healthy texts q ≡ false) × ¬ (AllRight ready influx redis client running))
  all_healthy_cases p false influx redis client running = inr (refl, λ h. false≢true h.0)
  all_healthy_cases p true (some e) redis client running = inr (refl, λ h. some-ne-none e h.1)
  all_healthy_cases p true none (some e) client running = inr (refl, λ h. some-ne-none e h.2)
  all_healthy_cases p true none none false running = inr (refl, λ h. false≢true h.3)
  all_healthy_cases p true none none true false = inr (refl, λ h. false≢true h.4)
  all_healthy_cases p true none none true true = inl (refl, (refl, refl, refl, refl, refl))

  -- The health is "healthy" exactly when the client of InfluxDB is there and answers, Redis answers,
  -- and the client and the server of asynq are there, whatever MaxMind's state; and the readiness is
  -- "ready" for exactly the same probes.
  pub assess_health-healthy_iff :
      (p : Probes)
      → (((assess_health texts p).status ≡ "healthy") ↔ (
          (p.influx_ready ≡ true)
          × (p.influx_error ≡ none)
          × (p.redis_error ≡ none)
          × (p.asynq_client ≡ true)
          × (p.server_running ≡ true)))
        × (((assess_readiness texts p).status ≡ "ready")
            ↔ ((assess_health texts p).status ≡ "healthy"))
  unfolding assess_health assess_readiness
  assess_health-healthy_iff p =
      elim (all_healthy_cases p p.influx_ready p.influx_error p.redis_error p.asynq_client
        p.server_running) [
          | inl (good, right) ↦ rw good (((λ e. right), (λ h. refl)), ((λ e. refl), (λ e. refl)))
          | inr (bad, wrong) ↦ rw bad (
            ((λ e. absurd (ground (arith, eq_iff "degraded" "healthy"))), (λ h. absurd (wrong h))),
            (
              (λ e. absurd (ground (arith, eq_iff "not_ready" "ready"))),
              (λ e. absurd (ground (arith, eq_iff "degraded" "healthy"))),
            ),
          )
        ]
