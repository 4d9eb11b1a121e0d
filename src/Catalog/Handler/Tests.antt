-- ===== src/Catalog/Handler/Tests.antt =====
-- The handlers of the catalog on concrete bodies (services/catalog-service/internal/catalog/handler.go).
use freshflow.Prelude.{◌≡◌, ◌↔◌, refl, none, some, [], ◌∷◌}
use freshflow.Prelude.Int.{pos}
use freshflow.Platform.Text.{codes}
use freshflow.Platform.Bytes.{bytes_eq}
use freshflow.Platform.Id.{is_uuid}
use freshflow.Platform.Http.{error}
use freshflow.Catalog.Handler.{ItemBody, ReserveBody, validate_reserve}
use freshflow.Catalog.Handler.Accepts.{IsAcceptable, validate_reserve_iff}

abbrev milk : ItemBody
milk = record { product_id = codes "10000000-0000-4000-8000-000000000001"; quantity = pos 2 }

abbrev body : ReserveBody
body = record {
  checkout_attempt_id = codes "20000000-0000-4000-8000-000000000002";
  items = milk ∷ [];
  ttl_seconds = pos 900;
}

accepts : validate_reserve body ≡ none
unfolding validate_reserve is_uuid
accepts = refl

refuses_twice :
    validate_reserve (record body { items = milk ∷ milk ∷ [] })
    ≡ some (error 400 "duplicate_product")
unfolding validate_reserve is_uuid bytes_eq
refuses_twice = refl

validate_reserve_iff_example : (validate_reserve body ≡ none) ↔ IsAcceptable body
validate_reserve_iff_example = validate_reserve_iff body
