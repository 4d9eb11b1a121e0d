-- ===== src/Simulator/Sequence.antt =====
-- The sequence numbers of the simulator (services/courier-simulator/internal/simulator/simulator.go).
use freshflow.Prelude.{
  ℕ, suc, ◌≤◌, ◌<◌, ◌≡◌, refl, List, [], ◌∷◌, ◌++◌, All, All-append, All-map, Bool-cases, inl, inr,
  arith,
}
use freshflow.Simulator.{
  Courier, Location, Floats, Runner, Env, fetched, report, report_from, tick, simulated_location,
  assignment_of,
}

-- The numbers grow along the list.
abbrev pub IsIncreasing : List Location → Type 0
IsIncreasing [] = Unit
IsIncreasing (l ∷ ls) = All (λ m. l.sequence < m.sequence) ls × IsIncreasing ls

-- Everything that was published has its own number, none above the last one given.
pub record IsNumbered (r : Runner) : Type 0 where
  pub increasing : IsIncreasing r.published
  pub given : All (λ l. l.sequence ≤ r.sequence) r.published

IsIncreasing-append :
    (ls : List Location) (l : Location)
    → IsIncreasing ls
    → All (λ m. m.sequence < l.sequence) ls
    → IsIncreasing (ls ++ l ∷ [])
IsIncreasing-append [] l h above = (tt, tt)
IsIncreasing-append (m ∷ ls) l h above = (
  All-append (λ k. m.sequence < k.sequence) ls (l ∷ []) h.0 (above.0, tt),
  IsIncreasing-append ls l h.1 above.1,
)

IsNumbered-publish :
    (l : Location) (r r' : Runner)
    → l.sequence ≡ suc r.sequence
    → r'.sequence ≡ suc r.sequence
    → r'.published ≡ r.published ++ l ∷ []
    → IsNumbered r
    → IsNumbered r'
IsNumbered-publish l r r' own last new h = record {
  increasing = rw new (
      IsIncreasing-append r.published l h.increasing (
        All-map (λ m. m.sequence ≤ r.sequence) (λ m. m.sequence < l.sequence) (λ m le. omega arith)
          r.published h.given));
  given =
      rw (new, last)
        (All-append (λ m. m.sequence ≤ suc r.sequence) r.published (l ∷ [])
          (All-map (λ m. m.sequence ≤ r.sequence) (λ m. m.sequence ≤ suc r.sequence)
            (λ m le. omega arith) r.published h.given)
          (omega arith, tt));
}

report-IsNumbered :
    (f : Floats) (env : Env) (c : Courier) (index : ℕ) (r : Runner)
    → IsNumbered r
    → IsNumbered (report f env c index r)
unfolding report
report-IsNumbered f env c index r h = elim (Bool-cases (env.publish_fails c.id)) [
  | inl down ↦ rw down (record {
    increasing = h.increasing;
    given =
        All-map (λ m. m.sequence ≤ r.sequence) (λ m. m.sequence ≤ suc r.sequence)
          (λ m le. omega arith) r.published h.given;
  })
  | inr up ↦
      let l = record (simulated_location f c (assignment_of c.id (fetched env)) env.now index) {
        sequence = suc r.sequence;
      } in
      IsNumbered-publish l r (report f env c index r) refl (ground arith) (ground arith) h
]

from-IsNumbered :
    (f : Floats) (env : Env) (cs : List Courier) (index : ℕ) (r : Runner)
    → IsNumbered r
    → IsNumbered (report_from f env cs index r)
unfolding report_from
from-IsNumbered f env [] index r h = h
from-IsNumbered f env (c ∷ cs) index r h =
    from-IsNumbered f env cs (suc index) (report f env c index r)
      (report-IsNumbered f env c index r h)

-- A tick never gives a number twice: what it publishes, for whichever couriers that succeeds, is numbered
-- above everything that was published before, in the order of publication.
pub tick-IsNumbered :
    (f : Floats) (couriers : List Courier) (env : Env) (r : Runner)
    → IsNumbered r
    → IsNumbered (tick f couriers env r)
unfolding tick
tick-IsNumbered f couriers env r h = from-IsNumbered f env couriers 0 r h
