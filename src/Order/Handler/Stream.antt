-- ===== src/Order/Handler/Stream.antt =====
-- The stream of an order (`stream` in services/order-service/internal/order/handler.go): one poll of the
-- database for each tick, and an event where the status is another one than was sent last.
use freshflow.Prelude.{
  ℕ, ◌≡◌, refl, ap, Bool, true, false, not, ◌||◌, Option, none, some, List, [], ◌∷◌, map,
  if◌then◌else◌, Bool-cases, inl, inr,
}
use freshflow.Platform.Id.{is_uuid, uuid_value}
use freshflow.Platform.Http.{ApiError, error}
use freshflow.Order.Model.{Status, delivered, cancelled, Order, Orders}
use freshflow.Order.Status.{status_eq}
use freshflow.Order.Cancel.{get}

-- What one turn of the loop meets: the tables, and which of its calls fail.
pub record Poll : Type 0 where
  pub db : Orders
  pub read_fails : Bool
  pub encode_fails : Bool
  pub flush_fails : Bool
  pub client_gone : Bool

-- What is written to the client.
pub data Frame : Type 0 where
  refused : ApiError → Frame
  event : Order → Frame

abbrev pub is_final : Status → Bool
is_final s = status_eq s delivered || status_eq s cancelled

-- Whether the status was sent last; nothing was, at first.
abbrev pub is_last : Option Status → Status → Bool
is_last none s = false
is_last (some t) s = status_eq s t

abbrev not_found_frames : Option Status → List Frame
not_found_frames none = refused (error 404 "order_not_found") ∷ []
not_found_frames (some _) = []

-- From the order that was read on: `rest` is the stream after this turn.
abbrev pub turn : Poll → Option Status → Order → List Frame → List Frame
turn p last o rest =
    let after = if is_final o.status || p.client_gone then [] else rest in
    if is_last last o.status
    then after
    else if p.encode_fails
    then []
    else if p.flush_fails
    then event o ∷ []
    else event o ∷ after

-- The loop; the list ends where the process does.
unfoldable pub polls : ℕ → List Poll → Option Status → List Frame
polls id [] last = []
polls id (p ∷ ps) last =
    let same = polls id ps last in
    if p.read_fails then [] else elim (get id p.db) [
      | none ↦ not_found_frames last
      | some o ↦
          (let next = polls id ps (some o.status) in
            turn p last o (if is_last last o.status then same else next))
    ]

-- `stream`
unfoldable pub stream : List ℕ → List Poll → List Frame
unfolding polls
stream id ps =
    if not (is_uuid id)
    then refused (error 400 "invalid_order_id") ∷ []
    else polls (uuid_value id) ps none

-- The statuses that the client is sent.
unfoldable pub statuses : List Frame → List Status
statuses [] = []
statuses (refused _ ∷ fs) = statuses fs
statuses (event o ∷ fs) = o.status ∷ statuses fs

-- The statuses up to the first that is final.
unfoldable pub up_to_final : List Status → List Status
up_to_final [] = []
up_to_final (s ∷ ss) = let rest = up_to_final ss in if is_final s then s ∷ [] else s ∷ rest

-- Of each run of one status, its first.
unfoldable pub changes : Option Status → List Status → List Status
changes last [] = []
changes last (s ∷ ss) =
    let rest = changes (some s) ss in if is_last last s then changes last ss else s ∷ rest

-- Turn by turn, the order is there and each call succeeds.
pub data Reads (id : ℕ) : List Poll → List Order → Type 0 where
  done : Reads id [] []
  next :
      {p : Poll}
      → {ps : List Poll} → {o : Order} → {os : List Order} → p.read_fails ≡ false
      → p.encode_fails ≡ false
      → p.flush_fails ≡ false
      → p.client_gone ≡ false
      → get id p.db ≡ some o
      → Reads id ps os
      → Reads id (p ∷ ps) (o ∷ os)

polls-changes :
    (id : ℕ) (ps : List Poll) (os : List Order) (last : Option Status)
    → Reads id ps os
    → statuses (polls id ps last) ≡ changes last (up_to_final (map (λ o. o.status) os))
unfolding polls statuses changes up_to_final
polls-changes id _ _ last done = refl
polls-changes id _ _ last (next {p = p} {ps = ps} {o = o} {os = os} r e f g found rest) =
    let same = polls-changes id ps os last rest in
    let other = polls-changes id ps os (some o.status) rest in
    elim (Bool-cases (is_final o.status)) [
      | inl over ↦ elim (Bool-cases (is_last last o.status)) [
        | inl sent ↦ rw (r, found, over, sent) refl
        | inr fresh ↦ rw (r, found, over, fresh, e, f) refl
      ]
      | inr on ↦ elim (Bool-cases (is_last last o.status)) [
        | inl sent ↦ rw (r, found, on, sent, g) same
        | inr fresh ↦ rw (r, found, on, fresh, e, f, g) (ap (λ rest. o.status ∷ rest) other)
      ]
    ]

-- A stream whose calls succeed sends a status once for each run of it: what the client is sent are the
-- changes of the status of the order as it was polled, up to the first that is final.
pub stream-changes :
    (id : List ℕ) (ps : List Poll) (os : List Order)
    → is_uuid id ≡ true
    → Reads (uuid_value id) ps os
    → statuses (stream id ps) ≡ changes none (up_to_final (map (λ o. o.status) os))
unfolding stream
stream-changes id ps os valid reads = rw valid (polls-changes (uuid_value id) ps os none reads)
