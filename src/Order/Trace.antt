-- ===== src/Order/Trace.antt =====
-- The status history of an order as a path through the life of an order
-- (services/order-service/internal/order/service.go, consumer.go).
use freshflow.Prelude.{
  ℕ, ◌≡◌, refl, ◌∙◌, Bool, true, false, ◌&&◌, ◌||◌, ◌==◌, Option, none, some, List, [], ◌∷◌, ◌++◌,
  if◌then◌else◌, find, update_where, arith, Bool-cases, inl, inr,
}
use freshflow.Order.Model.{Status, created, cancelled, Order, Change, Orders, order_is}
use freshflow.Order.Status.{status_eq, can_cancel, valid_transition}
use freshflow.Order.Cancel.{set_status}

-- The steps that the two operations take.
pub allowed : Status → Status → Bool
allowed s t = valid_transition s t || (can_cancel s && status_eq t cancelled)

pub valid-allowed : (s t : Status) → valid_transition s t ≡ true → allowed s t ≡ true
unfolding allowed
valid-allowed s t h = rw h

pub cancel-allowed : (s : Status) → can_cancel s ≡ true → allowed s cancelled ≡ true
unfolding allowed
cancel-allowed s h = elim (Bool-cases (valid_transition s cancelled)) [
  | inl valid ↦ rw valid
  | inr other ↦ rw (other, h)
]

-- A row of the history starts at the status reached, and takes an allowed step.
takes : Change → Status → Bool
unfolding allowed
takes c s = status_eq c.previous_status s && allowed s c.new_status

-- The status that the history of an order leads to from `s`; `none` where a row does not start at
-- the status reached, or takes a step that is not allowed.
pub follow : ℕ → List Change → Status → Option Status
follow k [] s = some s
follow k (c ∷ cs) s =
    let moved = follow k cs c.new_status in
    let stayed = follow k cs s in
    if c.order_id == k then if takes c s then moved else none else stayed

pub follow_empty : (k : ℕ) (s : Status) → follow k [] s ≡ some s
unfolding follow
follow_empty k s = refl

-- The status of an order; that of one which does not exist is where it would start.
abbrev pub status_of : ℕ → List Order → Status
status_of k [] = created
status_of k (o ∷ os) = if order_is k o then o.status else status_of k os

-- The history of every order is a path of allowed steps from `created` to the order's status.
abbrev pub IsTraced : Orders → Type 0
IsTraced db = (k : ℕ) → follow k db.history created ≡ some (status_of k db.orders)

follow-snoc :
    (k : ℕ) (cs : List Change) (c : Change) (s t : Status)
    → follow k cs s ≡ some t
    → follow k (cs ++ c ∷ []) s ≡ follow k (c ∷ []) t
unfolding follow
follow-snoc k [] c s t e = ground arith
follow-snoc k (d ∷ cs) c s t e =
    ground (arith, follow-snoc k cs c s t, follow-snoc k cs c d.new_status t)

status_of-move_ne :
    (k id : ℕ) (new : Status) (os : List Order)
    → (id == k) ≡ false
    → status_of k (update_where (order_is id) (set_status new) os) ≡ status_of k os
status_of-move_ne k id new [] ne = refl
status_of-move_ne k id new (q ∷ os) ne = elim (Bool-cases (order_is id q)) [
  | inl same ↦ rw same (ground (arith, status_of-move_ne k id new os))
  | inr other ↦ rw other (ground (arith, status_of-move_ne k id new os))
]

pub status_of-move :
    (k id : ℕ) (new : Status) (os : List Order) (o : Order)
    → find (order_is id) os ≡ some o
    → status_of k (update_where (order_is id) (set_status new) os)
      ≡ (if id == k then new else status_of k os)
status_of-move k id new [] o e = cc
status_of-move k id new (q ∷ os) o e = elim (Bool-cases (order_is id q)) [
  | inl same ↦ rw same (ground (arith, status_of-move_ne k id new os))
  | inr other ↦ rw other (ground (arith, status_of-move k id new os o))
]

pub status_of-find :
    (id : ℕ) (os : List Order) (o : Order)
    → find (order_is id) os ≡ some o
    → status_of id os ≡ o.status
status_of-find id [] o e = cc
status_of-find id (q ∷ os) o e = ground (arith, status_of-find id os o)

pub status_of-snoc :
    (k : ℕ) (os : List Order) (o : Order)
    → o.status ≡ created
    → status_of k (os ++ o ∷ []) ≡ status_of k os
status_of-snoc k [] o e = ground arith
status_of-snoc k (q ∷ os) o e = ground (arith, status_of-snoc k os o e)

takes_lem :
    (c : Change) → allowed c.previous_status c.new_status ≡ true → takes c c.previous_status ≡ true
unfolding takes
takes_lem c h = ground arith

-- An allowed step that is logged keeps the histories.
pub move-IsTraced :
    (id now : ℕ) (new : Status) (o : Order) (db db' : Orders)
    → find (order_is id) db.orders ≡ some o
    → allowed o.status new ≡ true
    → db'.orders ≡ update_where (order_is id) (set_status new) db.orders
    → db'.history
      ≡ db.history
        ++ record { order_id = id; previous_status = o.status; new_status = new; changed_at = now }
          ∷ []
    → IsTraced db
    → IsTraced db'
unfolding follow
move-IsTraced id now new o db db' found ok_step orders history h k =
    let row : Change = record {
      order_id = id;
      previous_status = o.status;
      new_status = new;
      changed_at = now;
    } in
    rw (orders, history)
      (follow-snoc k db.history row created (status_of k db.orders) (h k)
        ∙ ground (
          arith,
          status_of-move k id new db.orders o found,
          status_of-find id db.orders o found,
          takes_lem row ok_step,
        ))
