-- ===== src/Publication/Classify.antt =====
-- grey.go (ClassifyGreyChange): the kind of a change, against a description of the five kinds.
use iwut_app_center.Prelude.{
  ℤ, pos, ◌≤ℤ◌, ◌<ℤ◌, true, Option, none, some, Bytes, bytes_eq_iff, is_some, ◌≡◌, ◌≢◌, ◌↔◌, refl,
  ok, arith,
}
use iwut_app_center.Shared.Uuid.{is_uuid_v7}
use iwut_app_center.Publication.{exposure_is_valid, GreyRollout, ApplicationPublication}
use iwut_app_center.Publication.Grey.{
  GreyChangeKind, no_op, start, increase, decrease, replace, classify_grey_change,
}

-- What each kind says of the rollout that is there, the version and the exposure that are asked for.
abbrev pub IsChange : GreyChangeKind → Option GreyRollout → Bytes → ℤ → Type 0
IsChange start none version exposure = Unit
IsChange replace (some g) version exposure = g.version_id ≢ version
IsChange no_op (some g) version exposure =
    (g.version_id ≡ version) × (g.exposure_basis_points ≡ exposure)
IsChange increase (some g) version exposure =
    (g.version_id ≡ version) × (g.exposure_basis_points <ℤ exposure)
IsChange decrease (some g) version exposure =
    (g.version_id ≡ version) × (exposure <ℤ g.exposure_basis_points)
IsChange _ _ version exposure = ⊥

compare_slot_iff :
    (p : ApplicationPublication) (version : Bytes) (exposure expected : ℤ) (g : Option GreyRollout)
    (kind : GreyChangeKind)
    → p.grey_rollout ≡ g
    → (classify_grey_change (some p) version exposure expected ≡ ok kind) ↔ (
        (is_uuid_v7 version ≡ true)
        × (exposure_is_valid exposure ≡ true)
        × (pos 1 ≤ℤ expected)
        × (p.revision ≡ expected)
        × (is_some p.stable_version_id ≡ true)
        × IsChange kind g version exposure)
unfolding classify_grey_change
compare_slot_iff p version exposure expected none start e = (λ h. ground arith, λ h. ground arith)
compare_slot_iff p version exposure expected none kind e = (λ h. ground arith, λ h. ground arith)
compare_slot_iff p version exposure expected (some g) kind e = (
  λ h. ground (arith, bytes_eq_iff g.version_id version),
  λ h. ground (arith, bytes_eq_iff g.version_id version),
)

-- A change on a publication is classified, and of a given kind, exactly if the version and the
-- exposure are valid, the caller expected this revision, there is a stable version, and the rollout
-- stands to what is asked for as the kind says.
pub classify_grey_change_iff :
    (p : ApplicationPublication) (version : Bytes) (exposure expected : ℤ) (kind : GreyChangeKind)
    → (classify_grey_change (some p) version exposure expected ≡ ok kind) ↔ (
        (is_uuid_v7 version ≡ true)
        × (exposure_is_valid exposure ≡ true)
        × (pos 1 ≤ℤ expected)
        × (p.revision ≡ expected)
        × (is_some p.stable_version_id ≡ true)
        × IsChange kind p.grey_rollout version exposure)
classify_grey_change_iff p version exposure expected kind =
    compare_slot_iff p version exposure expected p.grey_rollout kind refl
