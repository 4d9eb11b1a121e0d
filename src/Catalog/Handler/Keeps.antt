-- ===== src/Catalog/Handler/Keeps.antt =====
-- The handlers that change the catalog keep it well-formed and its stock in balance
-- (services/catalog-service/internal/catalog/handler.go, store.go).
use freshflow.Prelude.{ℕ, ◌≡◌, refl, List, Option, none, some, Bool-cases, Option-cases, inl, inr}
use freshflow.Platform.Id.{is_uuid, uuid_value}
use freshflow.Catalog.Model.{Catalog, Env}
use freshflow.Catalog.Invariant.{IsValid, conserved}
use freshflow.Catalog.Reserve.Conserves.{reserve-conserves, reserve-IsValid}
use freshflow.Catalog.Release.Conserves.{release-conserves, release-IsValid}
use freshflow.Catalog.Handler.{
  ReserveBody, validate_reserve, request_of, handle_reserve, handle_release,
}

-- The catalog is well-formed, and a product has as much on the shelf and held together as before.
abbrev pub Keeps : Catalog → Catalog → Type 0
Keeps s s' = IsValid s' × ((k : ℕ) → conserved k s' ≡ conserved k s)

pub handle_reserve-Keeps :
    (env : Env) (body : Option ReserveBody) (s : Catalog)
    → IsValid s
    → Keeps s (handle_reserve env body s).1
unfolding handle_reserve validate_reserve is_uuid
handle_reserve-Keeps env none s h = (h, λ k. refl)
handle_reserve-Keeps env (some body) s h = elim (Option-cases (validate_reserve body)) [
  | inr (e, refused) ↦ rw refused (h, λ k. refl)
  | inl valid ↦
      let asked = request_of body in
      rw valid (reserve-IsValid env asked s h, λ k. reserve-conserves env asked s k)
]

pub handle_release-Keeps :
    (env : Env) (id : List ℕ) (s : Catalog) → IsValid s → Keeps s (handle_release env id s).1
unfolding handle_release
handle_release-Keeps env id s h = elim (Bool-cases (is_uuid id)) [
  | inr other ↦ rw other (h, λ k. refl)
  | inl valid ↦
      let asked = uuid_value id in
      rw valid (release-IsValid env asked s h, λ k. release-conserves env asked s k h)
]
