-- ===== src/Middleware/Permission.antt =====
-- The comparison of permissions, against what it means.
use competition_api.Prelude.{◌≡◌, ◌↔◌, ◌⊎◌, true, false, arith}
use competition_api.Models.Rows.{Permissions}
use competition_api.Middleware.{has_permission}

-- Each permission is not needed or there.
abbrev pub Covers : Permissions → Permissions → Type 0
Covers needed has =
    ((needed.crs ≡ false) ⊎ (has.crs ≡ true))
    × ((needed.competition_management ≡ false) ⊎ (has.competition_management ≡ true))
    × ((needed.job_runner ≡ false) ⊎ (has.job_runner ≡ true))

-- `hasPermission` decides whether every permission that is needed is there.
pub has_permission-Covers :
    (needed has : Permissions) → (has_permission needed has ≡ true) ↔ Covers needed has
unfolding has_permission
has_permission-Covers needed has = ground arith
