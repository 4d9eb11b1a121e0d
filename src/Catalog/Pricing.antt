-- ===== src/Catalog/Pricing.antt =====
-- What the loop of `Store.Reserve` grants when no item falls short: exactly the items, and the sum
-- of their prices (services/catalog-service/internal/catalog/store.go).
use mathlib.Core.Path.{subst}
use mathlib.Core.List.{append-nil, append_assoc}
use freshflow.Prelude.{
  ℕ, ◌+◌, ◌*◌, ◌%◌, ◌^◌, ◌≡◌, refl, ap, ◌∙◌, sym, Bool, true, false, some, List, [], ◌∷◌, ◌++◌,
  find, ltb, arith, Bool-cases, Option-cases, Result-cases, inl, inr, ok, ◌⊎◌,
}
use freshflow.Catalog.Model.{Product, ReservationItem, ReservedItem, Call, Shortage}
use freshflow.Catalog.Stock.{held_items}
use freshflow.Catalog.Scan.{Scan, short, grant, scan_item, scan_found, scan_items, sellable}
use freshflow.Catalog.Reserve.{has_shortage}

-- The price of all reserved items, without a bound.
abbrev pub cost : List ReservedItem → ℕ
cost [] = 0
cost (i ∷ is) = i.unit_price_minor * i.quantity + cost is

cost-append : (xs ys : List ReservedItem) → cost (xs ++ ys) ≡ cost xs + cost ys
cost-append [] ys = omega arith
cost-append (x ∷ xs) ys = omega (arith, cost-append xs ys)

held_items-append :
    (xs ys : List ReservedItem) → held_items (xs ++ ys) ≡ held_items xs ++ held_items ys
held_items-append [] ys = refl
held_items-append (x ∷ xs) ys = rw (held_items-append xs ys)

-- The total is the price of what is granted, as an int64.
abbrev pub IsPriced : Scan → Type 0
IsPriced acc = acc.total ≡ cost acc.reserved % 2 ^ 64

-- The item was granted as asked.
record Grants (i : ReservationItem) (acc acc' : Scan) : Type 0 where
  none_short : has_shortage acc' ≡ has_shortage acc
  granted : held_items acc'.reserved ≡ held_items acc.reserved ++ i ∷ []
  priced : IsPriced acc → IsPriced acc'

has_shortage-short :
    (i : ReservationItem) (n : ℕ) (acc : Scan) → has_shortage (short i n acc) ≡ true
has_shortage-short i n acc = go acc.shortages
  where
    go :
        (xs : List Shortage)
        → (elim (xs
            ++ record { product_id = i.product_id; requested = i.quantity; available = n } ∷ []) [
              | [] ↦ false
              | _ ∷ _ ↦ true
            ])
          ≡ true
    go [] = refl
    go (x ∷ xs) = refl

find-sellable_id :
    (k : ℕ) (ps : List Product) (p : Product) → find (sellable k) ps ≡ some p → p.id ≡ k
find-sellable_id k [] p e = cc
find-sellable_id k (q ∷ ps) p e = ground (arith, find-sellable_id k ps p)

grant-Grants :
    (i : ReservationItem) (p : Product) (acc : Scan)
    → p.id ≡ i.product_id
    → Grants i acc (grant i p acc)
grant-Grants i p acc e = record {
  none_short = refl;
  granted = held_items-append acc.reserved _ ∙ rw e;
  priced = λ h. rw (h, cost-append acc.reserved _) (omega arith);
}

scan_item-Grants :
    (broken : Call → Bool) (ps : List Product) (i : ReservationItem) (acc acc' : Scan)
    → scan_item broken ps i acc ≡ ok acc'
    → (has_shortage acc' ≡ true) ⊎ Grants i acc acc'
unfolding scan_item scan_found
scan_item-Grants broken ps i acc acc' e = elim (Option-cases (find (sellable i.product_id) ps)) [
  | inl missing ↦
      let q : short i 0 acc ≡ acc' = ground arith in
      inl (subst (λ a. has_shortage a ≡ true) q (has_shortage-short i 0 acc))
  | inr (p, found) ↦ elim (Bool-cases (ltb p.available_quantity i.quantity)) [
    | inl too_few ↦
        let q : short i p.available_quantity acc ≡ acc' = ground arith in
        inl (subst (λ a. has_shortage a ≡ true) q (has_shortage-short i p.available_quantity acc))
    | inr enough ↦
        let q : grant i p acc ≡ acc' = ground arith in
        inr
          (subst (Grants i acc) q (grant-Grants i p acc (find-sellable_id i.product_id ps p found)))
  ]
]

scan_items-cases :
    (broken : Call → Bool) (ps : List Product) (i : ReservationItem) (is : List ReservationItem)
    (acc acc' : Scan)
    → scan_items broken ps (i ∷ is) acc ≡ ok acc'
    → (mid : Scan) × (scan_item broken ps i acc ≡ ok mid) × (scan_items broken ps is mid ≡ ok acc')
unfolding scan_items
scan_items-cases broken ps i is acc acc' e = elim (Result-cases (scan_item broken ps i acc)) [
  | inl (x, failed) ↦ absurd (ground arith)
  | inr (mid, granted) ↦ (mid, granted, ground arith)
]

-- A shortage is never forgotten.
scan_items_short :
    (broken : Call → Bool) (ps : List Product) (is : List ReservationItem) (acc acc' : Scan)
    → scan_items broken ps is acc ≡ ok acc'
    → has_shortage acc ≡ true
    → has_shortage acc' ≡ true
scan_items_short broken ps [] acc acc' e h =
    subst (λ a. has_shortage a ≡ true) (let q : acc ≡ acc' = unfold scan_items in cc in q) h
scan_items_short broken ps (i ∷ is) acc acc' e h =
    let (mid, granted, rest) = scan_items-cases broken ps i is acc acc' e in
    scan_items_short broken ps is mid acc' rest
      (elim (scan_item-Grants broken ps i acc mid granted) [
        | inl fell ↦ fell
        | inr g ↦ g.none_short ∙ h
      ])

-- Without a shortage every item is granted as asked, in the order of the loop, and the total is
-- their price.
pub scan_items_exact :
    (broken : Call → Bool) (ps : List Product) (is : List ReservationItem) (acc acc' : Scan)
    → scan_items broken ps is acc ≡ ok acc'
    → has_shortage acc' ≡ false
    → IsPriced acc
    → (held_items acc'.reserved ≡ held_items acc.reserved ++ is) × IsPriced acc'
scan_items_exact broken ps [] acc acc' e h priced =
    let q : acc ≡ acc' = unfold scan_items in cc in
    (
      subst (λ a. held_items a.reserved ≡ held_items acc.reserved ++ []) q
          (sym (append-nil (held_items acc.reserved))),
      subst IsPriced q priced,
    )
scan_items_exact broken ps (i ∷ is) acc acc' e h priced =
    let (mid, granted, rest) = scan_items-cases broken ps i is acc acc' e in
    elim (scan_item-Grants broken ps i acc mid granted) [
      | inl fell ↦ absurd (cc (scan_items_short broken ps is mid acc' rest fell, h))
      | inr g ↦
          let (all, total) = scan_items_exact broken ps is mid acc' rest h (g.priced priced) in
          (
            all
                ∙ ap (λ xs. xs ++ is) g.granted
                ∙ append_assoc (held_items acc.reserved) (i ∷ []) is,
            total,
          )
    ]
