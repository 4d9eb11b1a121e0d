-- ===== src/Gateway.antt =====
-- The gateway (services/api-gateway): which service a path goes to and under which path there, the state of
-- the services behind it, and its configuration.
pub mod Config
pub mod Laws
pub mod Paths
pub mod Tests
use freshflow.Prelude.{
  ℕ, Bool, true, false, not, ◌&&◌, ◌||◌, Option, none, some, List, [], ◌∷◌, ◌++◌, if◌then◌else◌,
}
use freshflow.Platform.Text.{codes}
use freshflow.Platform.Bytes.{bytes_eq, strip_prefix, trim_prefix, has_suffix}

pub data Service : Type 0 where
  catalog cart order delivery analytics : Service

-- A pattern of the mux, the service behind it, and the two prefixes of `reverseProxy`.
pub record Route : Type 0 where
  pub pattern : List ℕ
  pub service : Service
  pub public_prefix : List ℕ
  pub internal_prefix : List ℕ

abbrev route_of : List ℕ → Service → List ℕ → List ℕ → Route
route_of pattern service public_prefix internal_prefix = record {
  pattern = pattern;
  service = service;
  public_prefix = public_prefix;
  internal_prefix = internal_prefix;
}

-- The routes of `New`.
abbrev pub routes : List Route
routes =
    route_of (codes "/api/v1/catalog/") catalog (codes "/api/v1/catalog") (codes "/internal/v1")
    ∷ route_of (codes "/api/v1/carts/") cart (codes "/api/v1/carts") (codes "/internal/v1/carts")
    ∷ route_of (codes "/api/v1/orders") order (codes "/api/v1/orders") (codes "/internal/v1/orders")
    ∷ route_of (codes "/api/v1/orders/") order (codes "/api/v1/orders")
        (codes "/internal/v1/orders")
    ∷ route_of (codes "/api/v1/deliveries/") delivery (codes "/api/v1/deliveries")
        (codes "/internal/v1/deliveries")
    ∷ route_of (codes "/api/v1/operations/") delivery (codes "/api/v1/operations")
        (codes "/internal/v1/operations")
    ∷ route_of (codes "/api/v1/analytics/") analytics (codes "/api/v1/analytics")
        (codes "/internal/v1/analytics")
    ∷ []

-- How http.ServeMux matches: a pattern that ends in a slash stands for what begins with it.
unfoldable pub is_match : Route → List ℕ → Bool
is_match r path =
    if has_suffix (codes "/") r.pattern
    then (strip_prefix r.pattern path).0
    else bytes_eq r.pattern path

-- What the gateway takes from the standard library: the cleaning of a path by http.ServeMux, and the path
-- that the Director of httputil.NewSingleHostReverseProxy makes of one for the URL of a service.
pub record Net : Type 0 where
  pub clean : List ℕ → List ℕ
  pub direct : Service → List ℕ → List ℕ

-- The `Director` of `reverseProxy`.
unfoldable pub rewrite : Net → Route → List ℕ → List ℕ
rewrite net r path = r.internal_prefix ++ trim_prefix r.public_prefix (net.direct r.service path)

-- The first route that matches; no path matches two.
unfoldable pub route_in : Net → List Route → List ℕ → Option (Service × List ℕ)
unfolding is_match rewrite
route_in net [] path = none
route_in net (r ∷ rs) path =
    let rest = route_in net rs path in
    if is_match r path then some (r.service, rewrite net r path) else rest

-- Where a path goes, and as which: `none` is an answer of the gateway itself, so also the redirect from a path
-- that is not clean. The URLs of the services are taken to be valid.
unfoldable pub route : Net → List ℕ → Option (Service × List ℕ)
unfolding route_in
route net path = if bytes_eq (net.clean path) path then route_in net routes path else none

-- The outcome of a check of `ready`, by the name of what was checked.
pub record Check : Type 0 where
  pub name : List ℕ
  pub is_up : Bool

-- The loop over the results, in the order in which the checks ended: the status of the answer.
unfoldable pub ready_from : ℕ → List Check → ℕ
ready_from status [] = status
ready_from status (c ∷ cs) = ready_from (if c.is_up then status else 503) cs

-- `ready`
unfoldable pub ready : List Check → ℕ
unfolding ready_from
ready results = ready_from 200 results
