-- ===== src/Gateway/Paths.antt =====
-- Which paths the gateway passes on (services/api-gateway/internal/httpapi/server.go).
use mathlib.Core.Path.{subst}
use freshflow.Prelude.{
  ℕ, ◌≡◌, ◌↔◌, refl, sym, true, false, some, List, [], ◌∷◌, ◌++◌, All, arith, Bool-cases, inl, inr,
  ◌==◌,
}
use freshflow.Platform.Text.{codes}
use freshflow.Platform.Bytes.{
  bytes_eq, bytes_eq_refl, bytes_eq→eq, strip_prefix, trim_prefix, has_suffix,
}
use freshflow.Gateway.{
  Service, catalog, cart, order, delivery, analytics, Net, Route, routes, is_match, rewrite,
  route_in, route,
}

-- The public paths, with the service that answers each and its path there.
pub data IsPublic : List ℕ → Service → List ℕ → Type 0 where
  of_catalog :
      (rest : List ℕ)
      → IsPublic (codes "/api/v1/catalog/" ++ rest) catalog (codes "/internal/v1/" ++ rest)
  of_cart :
      (rest : List ℕ)
      → IsPublic (codes "/api/v1/carts/" ++ rest) cart (codes "/internal/v1/carts/" ++ rest)
  all_orders : IsPublic (codes "/api/v1/orders") order (codes "/internal/v1/orders")
  of_order :
      (rest : List ℕ)
      → IsPublic (codes "/api/v1/orders/" ++ rest) order (codes "/internal/v1/orders/" ++ rest)
  of_delivery :
      (rest : List ℕ)
      → IsPublic
          (codes "/api/v1/deliveries/" ++ rest)
          delivery
          (codes "/internal/v1/deliveries/" ++ rest)
  of_operation :
      (rest : List ℕ)
      → IsPublic
          (codes "/api/v1/operations/" ++ rest)
          delivery
          (codes "/internal/v1/operations/" ++ rest)
  of_analytics :
      (rest : List ℕ)
      → IsPublic
          (codes "/api/v1/analytics/" ++ rest)
          analytics
          (codes "/internal/v1/analytics/" ++ rest)

strip_prefix-true :
    (ps cs : List ℕ) → (strip_prefix ps cs).0 ≡ true → cs ≡ ps ++ (strip_prefix ps cs).1
unfolding strip_prefix
strip_prefix-true [] cs e = refl
strip_prefix-true (p ∷ ps) [] e = absurd (ground arith)
strip_prefix-true (p ∷ ps) (c ∷ cs) e = elim (Bool-cases (p == c)) [
  | inl same ↦ ground (arith, same, strip_prefix-true ps cs)
  | inr other ↦ absurd (ground arith)
]

module _ (net : Net) (path : List ℕ) (direct : (s : Service) → net.direct s path ≡ path) where
  route_in-IsPublic :
      (rs : List Route) (service : Service) (target : List ℕ)
      → All (λ r. is_match r path ≡ true → IsPublic path r.service (rewrite net r path)) rs
      → route_in net rs path ≡ some (service, target)
      → IsPublic path service target
  unfolding route_in
  route_in-IsPublic [] service target h e = absurd (ground arith)
  route_in-IsPublic (r ∷ rs) service target h e = elim (Bool-cases (is_match r path)) [
    | inl hit ↦
        let q : (r.service, rewrite net r path) ≡ (service, target) = ground arith in
        subst (λ (a : Service × List ℕ). IsPublic path a.0 a.1) q (h.0 hit)
    | inr miss ↦ route_in-IsPublic rs service target h.1 (ground arith)
  ]

  rewritten :
      (r : Route) → rewrite net r path ≡ r.internal_prefix ++ trim_prefix r.public_prefix path
  unfolding rewrite
  rewritten r = rw (direct r.service) refl

  -- A route for what begins with its pattern.
  below :
      (r : Route)
      → has_suffix (codes "/") r.pattern ≡ true
      → ((rest : List ℕ)
          → IsPublic
              (r.pattern ++ rest)
              r.service
              (r.internal_prefix ++ trim_prefix r.public_prefix (r.pattern ++ rest)))
      → is_match r path ≡ true
      → IsPublic path r.service (rewrite net r path)
  unfolding is_match
  below r slash public hit =
      let starts : (strip_prefix r.pattern path).0 ≡ true = ground arith in
      let is = strip_prefix-true r.pattern path starts in
      rw (rewritten r) (
        subst (λ p. IsPublic p r.service (r.internal_prefix ++ trim_prefix r.public_prefix p))
          (sym is) (public (strip_prefix r.pattern path).1))

  -- A route for its pattern alone.
  exactly :
      (r : Route)
      → has_suffix (codes "/") r.pattern ≡ false
      → IsPublic r.pattern r.service (r.internal_prefix ++ trim_prefix r.public_prefix r.pattern)
      → is_match r path ≡ true
      → IsPublic path r.service (rewrite net r path)
  unfolding is_match
  exactly r no_slash public hit =
      let is : r.pattern ≡ path = bytes_eq→eq r.pattern path (ground arith) in
      rw (rewritten r) (
        subst (λ p. IsPublic p r.service (r.internal_prefix ++ trim_prefix r.public_prefix p)) is
          public)

  All-IsPublic :
      All (λ r. is_match r path ≡ true → IsPublic path r.service (rewrite net r path)) routes
  unfolding has_suffix trim_prefix strip_prefix
  All-IsPublic = (
    below _ refl of_catalog,
    (
      below _ refl of_cart,
      (
        exactly _ refl all_orders,
        (
          below _ refl of_order,
          (below _ refl of_delivery, (below _ refl of_operation, (below _ refl of_analytics, tt))),
        ),
      ),
    ),
  )

public_routed :
    (net : Net) (path : List ℕ) (service : Service) (target : List ℕ)
    → IsPublic path service target
    → ((s : Service) → net.direct s path ≡ path)
    → route_in net routes path ≡ some (service, target)
unfolding route_in is_match rewrite has_suffix trim_prefix strip_prefix
public_routed net path service target (of_catalog rest) direct = rw (direct catalog) refl
public_routed net path service target (of_cart rest) direct = rw (direct cart) refl
public_routed net path service target all_orders direct = rw (direct order) refl
public_routed net path service target (of_order rest) direct = rw (direct order) refl
public_routed net path service target (of_delivery rest) direct = rw (direct delivery) refl
public_routed net path service target (of_operation rest) direct = rw (direct delivery) refl
public_routed net path service target (of_analytics rest) direct = rw (direct analytics) refl

-- A path that http.ServeMux takes as it is goes to a service exactly when it is one of the public paths, and
-- then to the service and the path there that are written out for it: nothing else is passed on. The URLs of
-- the services are taken to have no path of their own, so that the Director of the standard library leaves
-- the path.
pub route_iff :
    (net : Net) (path : List ℕ) (service : Service) (target : List ℕ)
    → net.clean path ≡ path
    → ((s : Service) → net.direct s path ≡ path)
    → (route net path ≡ some (service, target)) ↔ IsPublic path service target
unfolding route
route_iff net path service target clean direct =
    let same : bytes_eq (net.clean path) path ≡ true = rw clean (bytes_eq_refl path) in
    (
      λ e.
          route_in-IsPublic net path direct routes service target (All-IsPublic net path direct)
            (rw (← e) (rw same refl)),
      λ p. rw same (public_routed net path service target p direct),
    )
