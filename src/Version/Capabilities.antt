-- ===== src/Version/Capabilities.antt =====
-- internal/version/domain/capability_set.go: what a capability set holds, and in which order.
use iwut_app_center.Prelude.{true, all, List, [], ◌∷◌, Bytes, length, ok, ◌≡◌, refl, subst, arith}
use iwut_app_center.Shared.Sorting.{sort_by}
use iwut_app_center.Publication.Snapshot.{contains}
use iwut_app_center.Review.Confirmation.{contains-sort_by}
use iwut_app_center.Version.Names.{
  code_point_less, is_capability_name, are_new_names, new_capability_set,
}
use iwut_app_center.Version.Members.{is_sorted_by, is_sorted_by-sort_by, code_point_less_asym}
use iwut_app_center.Version.Resorting.{all-sort_by, length-sort_by}

are_new_names-all :
    (seen values : List Bytes)
    → are_new_names seen values ≡ true
    → all is_capability_name values ≡ true
unfolding are_new_names
are_new_names-all seen [] h = refl
are_new_names-all seen (value ∷ values) h = ground (arith, are_new_names-all (value ∷ seen) values)

new_capability_set-eq :
    (values s : List Bytes)
    → new_capability_set values ≡ ok s
    → (are_new_names [] values ≡ true) × (sort_by code_point_less values ≡ s)
unfolding new_capability_set
new_capability_set-eq values s h = ground arith

-- A capability set holds exactly the values that it is made of, and as many of them; all of them are
-- capability names, and they are in the order of the code points.
pub new_capability_set_sound :
    (values s : List Bytes) (x : Bytes)
    → new_capability_set values ≡ ok s
    → (contains s x ≡ contains values x)
      × (length s ≡ length values)
      × (all is_capability_name s ≡ true)
      × (is_sorted_by code_point_less s ≡ true)
new_capability_set_sound values s x h =
    let (names, made) = new_capability_set-eq values s h in
    subst
      (λ l.
        (contains l x ≡ contains values x)
        × (length l ≡ length values)
        × (all is_capability_name l ≡ true)
        × (is_sorted_by code_point_less l ≡ true))
      made
      (
        contains-sort_by code_point_less values x,
        length-sort_by code_point_less values,
        rw (all-sort_by is_capability_name code_point_less values)
            (are_new_names-all [] values names),
        is_sorted_by-sort_by code_point_less code_point_less_asym values,
      )
