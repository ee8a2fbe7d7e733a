-- ===== src/Shared/Tests.antt =====
-- The theorem on application identities at a concrete text.
use iwut_app_center.Prelude.{some, codes, true, ◌≡◌, refl}
use iwut_app_center.Shared.Uuid.{is_uuid_v7, parse_application_id, to_lower}
use iwut_app_center.Shared.Uuid.Laws.{parse_application_id_canonical}

upper_case :
    parse_application_id (codes "01890A5D-AC96-774B-BCCE-B302099A8057")
    ≡ some (codes "01890a5d-ac96-774b-bcce-b302099a8057")
unfolding parse_application_id is_uuid_v7 to_lower
upper_case = refl

parse_application_id_canonical_example :
    (is_uuid_v7 (codes "01890a5d-ac96-774b-bcce-b302099a8057") ≡ true)
    × (parse_application_id (codes "01890a5d-ac96-774b-bcce-b302099a8057")
        ≡ some (codes "01890a5d-ac96-774b-bcce-b302099a8057"))
parse_application_id_canonical_example =
    parse_application_id_canonical (codes "01890A5D-AC96-774B-BCCE-B302099A8057") upper_case
