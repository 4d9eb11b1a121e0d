-- ===== src/Platform/Id/Tests.antt =====
-- UUIDs on concrete bytes (pkg/platform/id/id.go).
use freshflow.Prelude.{ℕ, ◌≡◌, refl, true, List, [], ◌∷◌, arith}
use freshflow.Platform.Text.{codes}
use freshflow.Platform.Id.{is_uuid, new_uuid}
use freshflow.Platform.Id.Fresh.{is_uuid-new_uuid}

abbrev bytes : List ℕ
bytes = 1 ∷ 35 ∷ 69 ∷ 103 ∷ 137 ∷ 171 ∷ 205 ∷ 239 ∷ 16 ∷ 50 ∷ 84 ∷ 118 ∷ 152 ∷ 186 ∷ 220 ∷ 254 ∷ []

abbrev text : List ℕ
text = codes "01234567-89ab-4def-9032-547698badcfe"

is_uuid-new_uuid_example : is_uuid text ≡ true
unfolding new_uuid
is_uuid-new_uuid_example =
    is_uuid-new_uuid bytes text refl
      (
        omega arith,
        (
          omega arith,
          (
            omega arith,
            (
              omega arith,
              (
                omega arith,
                (
                  omega arith,
                  (
                    omega arith,
                    (
                      omega arith,
                      (
                        omega arith,
                        (
                          omega arith,
                          (
                            omega arith,
                            (
                              omega arith,
                              (omega arith, (omega arith, (omega arith, (omega arith, tt)))),
                            ),
                          ),
                        ),
                      ),
                    ),
                  ),
                ),
              ),
            ),
          ),
        ),
      )
      refl
