-- ===== src/Simulator/Phases.antt =====
-- The simulator and the delivery service together (services/courier-simulator/internal/simulator/simulator.go,
-- services/delivery-service/internal/delivery/consumer.go): what a report does to the status of a
-- delivery.
use freshflow.Prelude.{
  ◌≡◌, refl, String, true, not, ◌||◌, if◌then◌else◌, Bool-cases, inl, inr, ◌⊎◌, arith,
}
use freshflow.Prelude.Int.{ℤ, pos, ltb_ℤ}
use freshflow.Platform.Text.{str_eq}
use freshflow.Delivery.Model.{Status, assigned, assembling, delivering, completed}
use freshflow.Delivery.Consume.{next_status, valid_delivery_transition}
use freshflow.Simulator.{phase_at}

abbrev pub named : String → Status
named phase =
    if str_eq phase "assembling"
    then assembling
    else if str_eq phase "delivering"
    then delivering
    else completed

-- The status after a report of the phase: `applyPhase` writes a phase that is the next one, and refuses
-- any other.
unfoldable pub reported : Status → ℤ → Status
unfolding next_status
reported s t = if valid_delivery_transition s (phase_at t) then named (phase_at t) else s

-- Outside the middle phase.
abbrev pub IsAside : ℤ → Type 0
IsAside t = (ltb_ℤ t (pos 3000) || not (ltb_ℤ t (pos 15000))) ≡ true

-- Not on its way yet.
abbrev pub IsWaiting : Status → Type 0
IsWaiting s = (s ≡ assigned) ⊎ (s ≡ assembling)

-- A report outside the middle phase begins or repeats the assembling, or asks for a step that is not allowed.
pub reported_aside : (s : Status) (t : ℤ) → IsAside t → IsWaiting s → IsWaiting (reported s t)
unfolding reported
reported_aside s t h from = elim (Bool-cases (ltb_ℤ t (pos 3000))) [
  | inl early ↦ elim from [
    | inl new ↦ inr (rw (new, early) refl)
    | inr begun ↦ inr (rw (begun, early) refl)
  ]
  | inr on ↦ elim (Bool-cases (ltb_ℤ t (pos 15000))) [
    | inl way ↦ absurd (ground (arith, h, on, way))
    | inr late ↦ elim from [
      | inl new ↦ inl (rw (new, on, late) refl)
      | inr begun ↦ inr (rw (begun, on, late) refl)
    ]
  ]
]
