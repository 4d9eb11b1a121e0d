-- ===== src/Order/Ledger.antt =====
-- What the order service relies on in an inventory, and what it keeps of it
-- (services/order-service/internal/order/client.go, service.go): an inventory with books that both of
-- its operations balance. The section `Order.Clients.Books` fills it for the catalog service.
use freshflow.Prelude.{
  ℕ, ◌≡◌, refl, ap, ◌∙◌, sym, String, Result, ok, err, Result-cases, inl, inr, ◌⊎◌, arith, find,
  ◌||◌, Bool-cases, Option-cases,
}
use mathlib.Core.Path.{subst}
use freshflow.Order.Model.{
  CheckoutRequest, Cart, ReserveRequest, Reservation, Order, UpstreamError, Inventory, World, begin,
  read_order, cancelled, order_is, Env,
}
use freshflow.Order.Create.{create}
use freshflow.Order.Create.Laws.{create-cases}
use freshflow.Order.Create.Errors.{Leaves, alone, not_reserved, release_called, create_error}
use freshflow.Order.Cancel.{cancel_tx, cancel, cancel_found}
use freshflow.Order.Status.{status_eq, can_cancel}

-- The books of an inventory: what it owns of each product, on the shelf and held, and that every
-- operation leaves the inventory well-formed and the sum of a product as it is.
pub record Ledger {I : Type 0} (inventory : Inventory I) : Type 1 where
  pub IsValid : I → Type 0
  pub total : ℕ → I → ℕ
  pub reserve_keeps :
      (request : ReserveRequest) (i : I)
      → IsValid i
      → IsValid (inventory.reserve request i).1
        × ((k : ℕ) → total k (inventory.reserve request i).1 ≡ total k i)
  pub release_keeps :
      (id : ℕ) (i : I)
      → IsValid i
      → IsValid (inventory.release id i).1
        × ((k : ℕ) → total k (inventory.release id i).1 ≡ total k i)

module _ {I : Type 0} (inventory : Inventory I) (books : Ledger inventory) where
  open books use {IsValid, total, reserve_keeps, release_keeps}

  -- The books of an inventory balance from one state to another.
  abbrev pub Balances : I → I → Type 0
  Balances i i' = IsValid i' × ((k : ℕ) → total k i' ≡ total k i)

  reserve_answer :
      (request : ReserveRequest) (i i' : I) (answer : Result UpstreamError Reservation)
      → inventory.reserve request i ≡ (answer, i')
      → IsValid i
      → Balances i i'
  reserve_answer request i i' answer e h =
      let after : (inventory.reserve request i).1 ≡ i' = ap (λ x. x.1) e in
      subst (Balances i) after (reserve_keeps request i h)

  Leaves-Balances :
      (hash : CheckoutRequest → String) (ttl id : ℕ) (carts : Result UpstreamError Cart) (i i' : I)
      → Leaves inventory hash ttl id carts i i'
      → IsValid i
      → Balances i i'
  Leaves-Balances hash ttl id carts i i' (alone e) h = subst (Balances i) (sym e) (h, λ k. refl)
  Leaves-Balances hash ttl id carts i i' (not_reserved cart fetched x e) h =
      reserve_answer (record { checkout_attempt_id = id; items = cart.items; ttl_seconds = ttl }) i
        i' (err x) e h
  Leaves-Balances hash ttl id carts i i' (release_called cart fetched r mid e gone) h =
      let asked =
        reserve_answer (record { checkout_attempt_id = id; items = cart.items; ttl_seconds = ttl })
          i mid (ok r) e h in
      let freed = release_keeps r.reservation_id mid asked.0 in
      subst (Balances i) (sym gone) (freed.0, λ k. freed.1 k ∙ asked.1 k)

  -- Whatever a checkout meets and answers, the inventory that it talks to keeps its books.
  pub create-Balances :
      (hash : CheckoutRequest → String) (ttl : ℕ) (env : Env) (carts : Result UpstreamError Cart)
      (key : String) (request : CheckoutRequest) (w : World I)
      → IsValid w.inventory
      → Balances w.inventory (create inventory hash ttl env carts key request w).1.inventory
  create-Balances hash ttl env carts key request w h =
      let w' = (create inventory hash ttl env carts key request w).1 in
      elim (Result-cases (create inventory hash ttl env carts key request w).0) [
        | inl (x, failed) ↦
            elim (create_error inventory hash ttl env carts key request w x failed).1 [
              | inl same ↦ subst (Balances w.inventory) (sym same) (h, λ k. refl)
              | inr (id, _, left) ↦
                  Leaves-Balances hash ttl id carts w.inventory w'.inventory left h
            ]
        | inr ((order, replayed), answered) ↦
            elim (create-cases inventory hash ttl env carts key request w order replayed answered) [
              | inl r ↦
                  subst (λ (v : World I). Balances w.inventory v.inventory) (sym r.unchanged)
                    (h, λ k. refl)
              | inr c ↦
                  let done = c.checks_out in
                  reserve_answer
                    (record {
                      checkout_attempt_id = c.attempt_id;
                      items = done.cart.items;
                      ttl_seconds = ttl;
                    })
                    w.inventory w'.inventory (ok done.reservation) done.reserved h
            ]
      ]

  found_asks :
      (env : Env) (id : ℕ) (o : Order) (w : World I)
      → ((cancel_found inventory env id o w).1.inventory ≡ w.inventory)
        ⊎ ((cancel_found inventory env id o w).1.inventory
            ≡ (inventory.release o.reservation_id w.inventory).1)
  unfolding cancel_found
  found_asks env id o w = elim (Bool-cases (status_eq o.status cancelled)) [
    | inl over ↦ inl (ground arith)
    | inr live ↦ elim (Bool-cases (can_cancel o.status)) [
      | inr late ↦ inl (ground arith)
      | inl can ↦ elim (Result-cases (inventory.release o.reservation_id w.inventory).0) [
        | inl (x, failed) ↦ inr (ground arith)
        | inr (_, released) ↦ elim (Result-cases (cancel_tx env id o.status w.db)) [
          | inl (x, failed) ↦ inr (ground arith)
          | inr ((_, db), went) ↦ inr (ground arith)
        ]
      ]
    ]
  ]

  found-Balances :
      (env : Env) (id : ℕ) (o : Order) (w : World I)
      → IsValid w.inventory
      → Balances w.inventory (cancel_found inventory env id o w).1.inventory
  found-Balances env id o w h = elim (found_asks env id o w) [
    | inl same ↦ subst (Balances w.inventory) (sym same) (h, λ k. refl)
    | inr gone ↦
        subst (Balances w.inventory) (sym gone) (release_keeps o.reservation_id w.inventory h)
  ]

  -- Whatever a cancellation meets and answers, the inventory keeps its books.
  pub cancel-Balances :
      (env : Env) (id : ℕ) (w : World I)
      → IsValid w.inventory
      → Balances w.inventory (cancel inventory env id w).1.inventory
  unfolding cancel
  cancel-Balances env id w h = elim (Bool-cases (env.broken begin || env.broken read_order)) [
    | inl down ↦ rw down (h, λ k. refl)
    | inr up ↦ elim (Option-cases (find (order_is id) w.db.orders)) [
      | inl absent ↦ rw (up, absent) (h, λ k. refl)
      | inr (o, found) ↦ rw (up, found) (found-Balances env id o w h)
    ]
  ]
