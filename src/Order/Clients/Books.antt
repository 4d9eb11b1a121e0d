-- ===== src/Order/Clients/Books.antt =====
-- The catalog service fills the interface of the order service's inventory, and a checkout and a
-- cancellation that go through both of them keep the stock (services/order-service/internal/order/client.go,
-- service.go, services/catalog-service/internal/catalog/handler.go).
use freshflow.Prelude.{ℕ, ◌≡◌, refl, sym, String, some, Result, arith, Bool-cases, inl, inr}
use mathlib.Core.Path.{subst}
use freshflow.Catalog.Model.{Catalog}
use freshflow.Catalog.Invariant.{IsValid, conserved}
use freshflow.Catalog.Handler.{handle_reserve, handle_release}
use freshflow.Catalog.Handler.Keeps.{Keeps, handle_reserve-Keeps, handle_release-Keeps}
use freshflow.Order.Model.{CheckoutRequest, Cart, ReserveRequest, UpstreamError, World, Env}
use freshflow.Order.Create.{create}
use freshflow.Order.Cancel.{cancel}
use freshflow.Order.Ledger.{Ledger, create-Balances, cancel-Balances}
use freshflow.Order.Clients.{Link, body_of, client_reserve, client_release, catalog_inventory}

client_reserve-Keeps :
    (link : Link) (request : ReserveRequest) (s : Catalog)
    → IsValid s
    → Keeps s (client_reserve link request s).1
unfolding client_reserve
client_reserve-Keeps link request s h = elim (Bool-cases link.reserve_wire.arrives) [
  | inr lost ↦ rw lost (h, λ k. refl)
  | inl there ↦
      let kept = handle_reserve-Keeps link.reserve_env (some (body_of link.text_of request)) s h in
      let same : (client_reserve link request s).1
          ≡ (handle_reserve link.reserve_env (some (body_of link.text_of request)) s).1 =
        ground arith in
      subst (Keeps s) (sym same) kept
]

client_release-Keeps :
    (link : Link) (id : ℕ) (s : Catalog) → IsValid s → Keeps s (client_release link id s).1
unfolding client_release
client_release-Keeps link id s h = elim (Bool-cases link.release_wire.arrives) [
  | inr lost ↦ rw lost (h, λ k. refl)
  | inl there ↦
      let kept = handle_release-Keeps link.release_env (link.text_of id) s h in
      let same : (client_release link id s).1
          ≡ (handle_release link.release_env (link.text_of id) s).1 =
        ground arith in
      subst (Keeps s) (sym same) kept
]

-- The books of the catalog, behind its HTTP interface.
unfoldable catalog_ledger : (link : Link) → Ledger (catalog_inventory link)
catalog_ledger link = record {
  IsValid = IsValid;
  total = conserved;
  reserve_keeps = client_reserve-Keeps link;
  release_keeps = client_release-Keeps link;
}

-- Through a checkout no stock is lost or made: whatever is lost on the wire, whichever external calls
-- fail, and whatever the answer is, the catalog is well-formed and each product has as much on the
-- shelf and held together as before.
pub create_conserves :
    (link : Link) (hash : CheckoutRequest → String) (ttl : ℕ) (env : Env)
    (carts : Result UpstreamError Cart) (key : String) (request : CheckoutRequest)
    (w : World Catalog)
    → IsValid w.inventory
    → Keeps w.inventory
        (create (catalog_inventory link) hash ttl env carts key request w).1.inventory
unfolding catalog_ledger
create_conserves link hash ttl env carts key request w h =
    create-Balances (catalog_inventory link) (catalog_ledger link) hash ttl env carts key request w
      h

-- Nor through a cancellation.
pub cancel_conserves :
    (link : Link) (env : Env) (id : ℕ) (w : World Catalog)
    → IsValid w.inventory
    → Keeps w.inventory (cancel (catalog_inventory link) env id w).1.inventory
unfolding catalog_ledger
cancel_conserves link env id w h =
    cancel-Balances (catalog_inventory link) (catalog_ledger link) env id w h
