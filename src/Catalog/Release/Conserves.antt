-- ===== src/Catalog/Release/Conserves.antt =====
-- Conservation of the stock and the invariant under `Store.Release`
-- (services/catalog-service/internal/catalog/store.go).
use mathlib.Core.Path.{subst}
use freshflow.Prelude.{
  ℕ, ◌+◌, ◌≡◌, refl, ap, ◌∙◌, sym, true, false, some, List, [], ◌∷◌, find, update_where, exists,
  arith, Bool-cases, Option-cases, Result-cases, inl, inr, All, ◌⊎◌,
}
use freshflow.Catalog.Model.{is_active, Reservation, Catalog, Env, reservation_is}
use freshflow.Catalog.Stock.{held, held_in, product_ids}
use freshflow.Catalog.Stock.Restore.{product_ids-restore_all, stock-restore_all}
use freshflow.Catalog.Invariant.{HasDistinctIds, IsSound, IsValid, conserved}
use freshflow.Catalog.Release.{restore_all, release_row, release, release_found}

abbrev pub mark : ℕ → List Reservation → List Reservation
mark id rs = update_where (reservation_is id) release_row rs

mark_absent :
    (id : ℕ) (rs : List Reservation) → exists (reservation_is id) rs ≡ false → mark id rs ≡ rs
mark_absent id [] h = refl
mark_absent id (r ∷ rs) h = ground (arith, mark_absent id rs)

exists-mark :
    (j id : ℕ) (rs : List Reservation)
    → exists (reservation_is j) (mark id rs) ≡ exists (reservation_is j) rs
exists-mark j id [] = refl
exists-mark j id (r ∷ rs) = ground (arith, exists-mark j id rs)

HasDistinctIds-mark :
    (id : ℕ) (rs : List Reservation) → HasDistinctIds rs → HasDistinctIds (mark id rs)
HasDistinctIds-mark id [] h = tt
HasDistinctIds-mark id (r ∷ rs) h =
    ground (arith, HasDistinctIds-mark id rs h.1, exists-mark r.id id rs)

IsSound-mark :
    (ids : List ℕ) (id : ℕ) (rs : List Reservation)
    → All (IsSound ids) rs
    → All (IsSound ids) (mark id rs)
IsSound-mark ids id [] h = tt
IsSound-mark ids id (r ∷ rs) h = elim (Bool-cases (reservation_is id r)) [
  | inl same ↦ rw same (h.0, IsSound-mark ids id rs h.1)
  | inr other ↦ rw other (h.0, IsSound-mark ids id rs h.1)
]

-- Marking the one active row with the id frees what it held.
held-mark :
    (k id : ℕ) (rs : List Reservation) (r : Reservation)
    → HasDistinctIds rs
    → find (reservation_is id) rs ≡ some r
    → is_active r.status ≡ true
    → held k (mark id rs) + held_in k r.items ≡ held k rs
held-mark k id [] r h e a = cc
held-mark k id (q ∷ rs) r h e a = elim (Bool-cases (reservation_is id q)) [
  | inl same ↦
      let here : q ≡ r = ground arith in
      let its_id : q.id ≡ id = ground arith in
      let freed =
        mark_absent id rs (subst (λ j. exists (reservation_is j) rs ≡ false) its_id h.0) in
      rw (same, freed, ← here)
        (rw (ap (λ (x : Reservation). is_active x.status) here ∙ a) (omega arith))
  | inr other ↦ rw other (omega (arith, held-mark k id rs r h.1 (ground arith) a))
]

pub IsSound-find :
    (ids : List ℕ) (id : ℕ) (rs : List Reservation) (r : Reservation)
    → All (IsSound ids) rs
    → find (reservation_is id) rs ≡ some r
    → IsSound ids r
IsSound-find ids id [] r h e = cc
IsSound-find ids id (q ∷ rs) r h e = elim (Bool-cases (reservation_is id q)) [
  | inl same ↦ subst (IsSound ids) (let p : q ≡ r = ground arith in p) h.0
  | inr other ↦ IsSound-find ids id rs r h.1 (ground arith)
]

-- A release that goes through on an active reservation gave its items back and marked it.
pub record Releases (id : ℕ) (s s' : Catalog) : Type 0 where
  pub row : Reservation
  pub found : find (reservation_is id) s.reservations ≡ some row
  pub was_active : is_active row.status ≡ true
  pub products : s'.products ≡ restore_all row.items s.products
  pub marked : s'.reservations ≡ mark id s.reservations

pub release-cases :
    (env : Env) (id : ℕ) (s : Catalog)
    → ((release env id s).1 ≡ s) ⊎ Releases id s (release env id s).1
unfolding release release_found
release-cases env id s = elim (Option-cases (find (reservation_is id) s.reservations)) [
  | inl absent ↦ inl (ground arith)
  | inr (r, found) ↦ elim (Result-cases (release env id s).0) [
    | inl (x, e) ↦ inl (ground arith)
    | inr (_, e) ↦ elim (Bool-cases (is_active r.status)) [
      | inr over ↦ inl (ground arith)
      | inl live ↦ inr (record {
        row = r;
        found = found;
        was_active = live;
        products = ground arith;
        marked = ground arith;
      })
    ]
  ]
]

-- Whatever a call of `Release` meets, the stock of every product together with what the active
-- reservations hold of it is what it was.
pub release-conserves :
    (env : Env) (id : ℕ) (s : Catalog) (k : ℕ)
    → IsValid s
    → conserved k (release env id s).1 ≡ conserved k s
release-conserves env id s k h = elim (release-cases env id s) [
  | inl same ↦ ap (conserved k) same
  | inr gone ↦
      let (unique, known) =
        IsSound-find (product_ids s.products) id s.reservations gone.row h.sound gone.found in
      rw (gone.products, gone.marked)
        (omega (
          arith,
          stock-restore_all k gone.row.items s.products unique known,
          held-mark k id s.reservations gone.row h.distinct gone.found gone.was_active,
        ))
]

-- A call of `Release` keeps the tables valid.
pub release-IsValid : (env : Env) (id : ℕ) (s : Catalog) → IsValid s → IsValid (release env id s).1
release-IsValid env id s h = elim (release-cases env id s) [
  | inl same ↦ subst IsValid (sym same) h
  | inr gone ↦ record {
    distinct = rw gone.marked (HasDistinctIds-mark id s.reservations h.distinct);
    sound =
        rw (gone.marked, gone.products, product_ids-restore_all gone.row.items s.products)
          (IsSound-mark (product_ids s.products) id s.reservations h.sound);
  }
]
