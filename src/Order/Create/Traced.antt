-- ===== src/Order/Create/Traced.antt =====
-- Checkout and the status histories (services/order-service/internal/order/service.go).
use freshflow.Prelude.{ℕ, refl, ap, sym, ◌∙◌, some, String, Result, Result-cases, inl, inr}
use freshflow.Order.Model.{CheckoutRequest, Cart, Orders, UpstreamError, Inventory, World, Env}
use freshflow.Order.Create.{create}
use freshflow.Order.Create.Outcome.{SameOrders}
use freshflow.Order.Create.Laws.{create-cases}
use freshflow.Order.Create.Errors.{create_error}
use freshflow.Order.Trace.{IsTraced, status_of-snoc}

same-IsTraced : (db db' : Orders) → SameOrders db db' → IsTraced db → IsTraced db'
same-IsTraced db db' same h k = rw (same.history, same.orders) (h k)

module _ {I : Type 0} (inventory : Inventory I) (hash : CheckoutRequest → String) (ttl : ℕ) where
  -- `Create` keeps the histories of the orders paths of allowed steps, whatever it meets and answers.
  pub create-IsTraced :
      (env : Env) (carts : Result UpstreamError Cart) (key : String) (request : CheckoutRequest)
      (w : World I)
      → IsTraced w.db
      → IsTraced (create inventory hash ttl env carts key request w).1.db
  create-IsTraced env carts key request w h =
      let w' = (create inventory hash ttl env carts key request w).1 in
      elim (Result-cases (create inventory hash ttl env carts key request w).0) [
        | inl (x, failed) ↦
            same-IsTraced w.db w'.db
              (create_error inventory hash ttl env carts key request w x failed).0 h
        | inr ((order, replayed), answered) ↦
            elim (create-cases inventory hash ttl env carts key request w order replayed answered) [
              | inl r ↦ rw r.unchanged h
              | inr c ↦
                  let p = c.checks_out.persisted in
                  λ k.
                    rw (p.writes.history, p.writes.orders, c.same.history, c.same.orders)
                      (h k ∙ ap some (sym (status_of-snoc k w.db.orders order (rw p.shape refl))))
            ]
      ]
