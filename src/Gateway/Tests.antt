-- ===== src/Gateway/Tests.antt =====
-- The gateway on concrete data (services/api-gateway).
use freshflow.Prelude.{ℕ, List, ◌↔◌, ◌==◌, ◌&&◌, if◌then◌else◌, ◌≡◌, refl, none, some, [], ◌∷◌, ok}
use freshflow.Prelude.Int.{pos}
use freshflow.Platform.Text.{codes}
use freshflow.Platform.Bytes.{
  bytes_eq, split_from, trim_space, has_suffix, strip_prefix, trim_prefix,
}
use freshflow.Platform.Envconfig.{int, duration, string, split_non_empty}
use freshflow.Gateway.{catalog, order, Net, route}
use freshflow.Gateway.Paths.{IsPublic, route_iff}
use freshflow.Gateway.Config.{Process, Config, config_of, seconds, load}
use freshflow.Gateway.Laws.{IsUsable, load-IsUsable}

-- An empty environment.
abbrev process : Process
process = record {
  getenv = λ _. [];
  atoi = λ _. none;
  parse_duration = λ _. none;
  parse_level = λ _. some (pos 0);
}

abbrev config : Config
config =
    config_of process (pos 0) (pos 0) (seconds 15) (seconds 2) (seconds 10)
      (codes "localhost:9092" ∷ [])

loads : load process ≡ ok config
unfolding load int duration string split_non_empty bytes_eq split_from trim_space
loads = refl

load-IsUsable_example : IsUsable config
load-IsUsable_example = load-IsUsable process config loads

-- Slashes that follow another are dropped.
abbrev single_slashes : List ℕ → List ℕ
single_slashes [] = []
single_slashes (c ∷ []) = c ∷ []
single_slashes (c ∷ d ∷ cs) =
    let rest = single_slashes (d ∷ cs) in if c == b'/' && d == b'/' then rest else c ∷ rest

abbrev net : Net
net = record { clean = single_slashes; direct = λ service path. path }

-- The reservations of the catalog can be reached from outside.
reservations :
    route net (codes "/api/v1/catalog/reservations")
    ≡ some (catalog, codes "/internal/v1/reservations")
unfolding route bytes_eq has_suffix strip_prefix trim_prefix
reservations = refl

route_iff_example :
    (route net (codes "/api/v1/orders/9") ≡ some (order, codes "/internal/v1/orders/9"))
    ↔ IsPublic (codes "/api/v1/orders/9") order (codes "/internal/v1/orders/9")
route_iff_example =
    route_iff net (codes "/api/v1/orders/9") order (codes "/internal/v1/orders/9") refl (λ s. refl)
