-- ===== src/Gateway/Laws.antt =====
-- The promises of the gateway (services/api-gateway/internal/httpapi/server.go,
-- services/api-gateway/internal/config/config.go).
use freshflow.Prelude.{
  ℕ, ◌≡◌, ◌↔◌, refl, true, false, List, [], ◌∷◌, ok, All, arith, Bool-cases, Option-cases,
  Result-cases, List-cases, inl, inr, ◌⊎◌, String, Option, length, ◌≤◌,
}
use mathlib.Core.Path.{subst}
use freshflow.Prelude.Int.{ℤ, pos, ◌≤ℤ◌}
use freshflow.Platform.Bytes.{bytes_eq, split_from, trim_space}
use freshflow.Platform.Envconfig.{int, duration, non_empty, split_non_empty}
use freshflow.Gateway.{Check, ready, ready_from}
use freshflow.Gateway.Config.{Process, Config, env, seconds, level_of, config_of, load}

once_down : (cs : List Check) → ready_from 503 cs ≡ 503
unfolding ready_from
once_down [] = refl
once_down (c ∷ cs) = elim (Bool-cases c.is_up) [
  | inl up ↦ rw up (once_down cs)
  | inr down ↦ rw down (once_down cs)
]

-- The gateway answers that it is ready exactly when every check succeeded, in whatever order they ended;
-- otherwise the service is unavailable.
pub ready_iff :
    (cs : List Check)
    → ((ready cs ≡ 200) ↔ All (λ c. c.is_up ≡ true) cs) × ((ready cs ≡ 200) ⊎ (ready cs ≡ 503))
unfolding ready ready_from
ready_iff [] = ((λ _. tt, λ _. refl), inl refl)
ready_iff (c ∷ cs) = elim (Bool-cases c.is_up) [
  | inl up ↦
      let ((sound, complete), answers) = ready_iff cs in
      rw up ((λ e. (refl, sound e), λ h. complete h.1), answers)
  | inr down ↦ (
    (λ e. absurd (ground (arith, once_down cs)), λ h. absurd (ground (arith, h.0, down))),
    inr (rw down (once_down cs)),
  )
]

duration_positive :
    (parse : List ℕ → Option ℤ) (getenv : String → List ℕ) (key : String) (fallback d : ℤ)
    → pos 1 ≤ℤ fallback
    → duration parse getenv key fallback ≡ ok d
    → pos 1 ≤ℤ d
unfolding duration
duration_positive parse getenv key fallback d h e =
    elim (Option-cases (parse (trim_space (getenv key)))) [
      | inl bad ↦ ground arith
      | inr (n, good) ↦ ground arith
    ]

non_empty_lem : (ps : List (List ℕ)) → All (λ p. bytes_eq p [] ≡ false) (non_empty ps)
unfolding non_empty
non_empty_lem [] = tt
non_empty_lem (p ∷ ps) = elim (Bool-cases (bytes_eq (trim_space p) [])) [
  | inl blank ↦ rw blank (non_empty_lem ps)
  | inr named ↦ rw named (named, non_empty_lem ps)
]

brokers_lem : (raw : List ℕ) → All (λ p. bytes_eq p [] ≡ false) (split_non_empty raw)
unfolding split_non_empty
brokers_lem raw = non_empty_lem (split_from b',' [] raw)

-- What a gateway starts with.
pub record IsUsable (c : Config) : Type 0 where
  pub some_broker : 1 ≤ length c.kafka_brokers
  pub brokers : All (λ b. bytes_eq b [] ≡ false) c.kafka_brokers
  pub startup : pos 1 ≤ℤ c.startup_timeout
  pub check : pos 1 ≤ℤ c.dependency_check_timeout
  pub shutdown : pos 1 ≤ℤ c.shutdown_timeout

-- A configuration that is loaded has a Kafka broker and none with an empty name, and all its timeouts are
-- positive, whatever the environment says.
pub load-IsUsable : (p : Process) (c : Config) → load p ≡ ok c → IsUsable c
unfolding load
load-IsUsable p c e =
    let start = duration p.parse_duration p.getenv "FRESHFLOW_STARTUP_TIMEOUT" (seconds 15) in
    let check =
      duration p.parse_duration p.getenv "FRESHFLOW_DEPENDENCY_CHECK_TIMEOUT" (seconds 2) in
    let stop = duration p.parse_duration p.getenv "FRESHFLOW_SHUTDOWN_TIMEOUT" (seconds 10) in
    let names = split_non_empty (env p "FRESHFLOW_KAFKA_BROKERS" "localhost:9092") in
    elim (Result-cases (int p.atoi p.getenv "FRESHFLOW_REDIS_DB" (pos 0))) [
      | inl (x, failed) ↦ absurd (ground arith)
      | inr (db, redis) ↦ elim (Result-cases (level_of p)) [
        | inl (x, failed) ↦ absurd (ground arith)
        | inr (l, level) ↦ elim (Result-cases start) [
          | inl (x, failed) ↦ absurd (ground arith)
          | inr (a, started) ↦ elim (Result-cases check) [
            | inl (x, failed) ↦ absurd (ground arith)
            | inr (b, checked) ↦ elim (Result-cases stop) [
              | inl (x, failed) ↦ absurd (ground arith)
              | inr (d, stopped) ↦ elim (List-cases names) [
                | inl nobody ↦ absurd (ground arith)
                | inr (n, ns, named) ↦
                    let same : config_of p db l a b d (n ∷ ns) ≡ c = ground arith in
                    let clean = brokers_lem (env p "FRESHFLOW_KAFKA_BROKERS" "localhost:9092") in
                    let clean' : All (λ b. bytes_eq b [] ≡ false) (n ∷ ns) =
                      subst (λ bs. All (λ b. bytes_eq b [] ≡ false) bs) named clean in
                    subst IsUsable same (record {
                      some_broker = omega arith;
                      brokers = clean';
                      startup =
                          duration_positive p.parse_duration p.getenv "FRESHFLOW_STARTUP_TIMEOUT"
                            (seconds 15) a (omega arith) started;
                      check =
                          duration_positive p.parse_duration p.getenv
                            "FRESHFLOW_DEPENDENCY_CHECK_TIMEOUT" (seconds 2) b (omega arith)
                            checked;
                      shutdown =
                          duration_positive p.parse_duration p.getenv "FRESHFLOW_SHUTDOWN_TIMEOUT"
                            (seconds 10) d (omega arith) stopped;
                    })
              ]
            ]
          ]
        ]
      ]
    ]
