-- ===== src/Delivery/Views/Streamed.antt =====
-- What the stream of a delivery sends (services/delivery-service/internal/delivery/handler.go).
use freshflow.Prelude.{
  ℕ, ◌≡◌, refl, ap, Bool, true, false, Option, none, some, List, [], ◌∷◌, map, if◌then◌else◌,
  Option-cases, Bool-cases, inl, inr,
}
use freshflow.Platform.Id.{is_uuid, uuid_value}
use freshflow.Delivery.Model.{is_terminal}
use freshflow.Delivery.Views.{
  View, delivery_by_order, Poll, Frame, pending, shown, polls, stream_by_order,
}

abbrev pub is_over : Option View → Bool
is_over none = false
is_over (some v) = is_terminal v.delivery.status

-- What was seen up to the first delivery that is over.
unfoldable pub until_over : List (Option View) → List (Option View)
until_over [] = []
until_over (o ∷ os) = let rest = until_over os in if is_over o then o ∷ [] else o ∷ rest

abbrev pub frame_of : Option View → Frame
frame_of none = pending
frame_of (some v) = shown v

-- Each call of the turns succeeds.
abbrev pub IsCalm : Poll → Type 0
IsCalm p =
    (p.read_fails ≡ false)
    × (p.encode_fails ≡ false)
    × (p.flush_fails ≡ false)
    × (p.client_gone ≡ false)

abbrev pub AreCalm : List Poll → Type 0
AreCalm [] = Unit
AreCalm (p ∷ ps) = IsCalm p × AreCalm ps

polls-until_over :
    (id : ℕ) (ps : List Poll)
    → AreCalm ps
    → polls id ps ≡ map frame_of (until_over (map (λ p. delivery_by_order id p.db) ps))
unfolding polls until_over
polls-until_over id [] h = refl
polls-until_over id (p ∷ ps) h =
    let rest = polls-until_over id ps h.1 in
    let (reads, encodes, flushes, stays) = h.0 in
    elim (Option-cases (delivery_by_order id p.db)) [
      | inl absent ↦ rw (polls, reads, absent, flushes, stays) (ap (λ fs. pending ∷ fs) rest)
      | inr (v, found) ↦ elim (Bool-cases (is_terminal v.delivery.status)) [
        | inl over ↦ rw (polls, reads, found, encodes, flushes, over) refl
        | inr live ↦
            rw (polls, reads, found, encodes, flushes, stays, live) (ap (λ fs. shown v ∷ fs) rest)
      ]
    ]

-- A stream whose calls succeed sends one frame for each turn, in order: the delivery as it was read, or that
-- it is pending; it ends with the first delivery that is over.
pub stream_by_order-until_over :
    (id : List ℕ) (ps : List Poll)
    → is_uuid id ≡ true
    → AreCalm ps
    → stream_by_order id ps
      ≡ map frame_of (until_over (map (λ p. delivery_by_order (uuid_value id) p.db) ps))
unfolding stream_by_order
stream_by_order-until_over id ps valid calm = rw valid (polls-until_over (uuid_value id) ps calm)
