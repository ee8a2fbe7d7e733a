-- ===== src/Application/Closure.antt =====
-- internal/application/usecase/application_closure.go (Close) with domain/application_closure.go and the
-- eligibility of port/admin_transfer.go: an administrator closes an application. The repository works on
-- a state of its own; the directory, the ids and the clock answer.
use iwut_app_center.Prelude.{
  ℤ, pos, ltb_ℤ, Bool, true, false, not, ◌&&◌, ◌||◌, Option, none, some, List, [], ◌∷◌, Bytes,
  codes, bytes_eq, is_empty, Result, ok, err, ◌>>◌, reject, if◌then◌else◌,
}
use iwut_app_center.Shared.{
  Time, utc, AuthId, auth_id_is_valid, DeveloperStatus, is_approved, DeveloperIdentity,
}
use iwut_app_center.Shared.Uuid.{is_uuid_v7}
use iwut_app_center.Application.{
  Error, invalid_application_id, internal, developer_identity_required, developer_approval_required,
  invalid_ownership_revision, invalid_lifecycle_revision, invalid_close_confirmation,
  high_risk_proof_invalid, application_lifecycle_changed, developer_status_unavailable,
  application_closure_not_found, application_not_found,
}

pub record CloseProof : Type 0 where
  pub subject : AuthId
  pub application_id : Bytes
  pub jti : Bytes
  pub auth_time : Time
  pub issued_at : Time
  pub expires_at : Time

pub record CloseCommand : Type 0 where
  pub application_id : Bytes
  pub expected_ownership_revision : ℤ  -- int64
  pub expected_lifecycle_revision : ℤ  -- int64
  pub confirmation : Bytes
  pub proof : CloseProof
  pub proof_stale : Bool

-- The fields of ApplicationClosure that Close reads.
pub record Closure : Type 0 where
  pub closure_id : Bytes
  pub high_risk_proof_jti : Bytes

pub record DeveloperLifecycle : Type 0 where
  pub auth_id : AuthId
  pub account_active : Bool
  pub developer_status : DeveloperStatus

unfoldable pub is_eligible : DeveloperLifecycle → Bool
is_eligible d = auth_id_is_valid d.auth_id && d.account_active && is_approved d.developer_status

-- What Start is asked for.
pub record StartRequest : Type 0 where
  pub application_id : Bytes
  pub admin : AuthId
  pub ownership_revision : ℤ
  pub lifecycle_revision : ℤ
  pub proof : CloseProof
  pub closure_id : Bytes
  pub at : Time

-- The repository over a state `S`, the directory (`none` where it fails), the generator of ids (`none`
-- where it fails) and the clock.
pub record ClosePorts (S : Type 0) : Type 0 where
  pub find : S → Bytes → AuthId → Result Error Closure
  pub start : S → StartRequest → S × Result Error Closure
  pub get_fresh : AuthId → Option (List DeveloperLifecycle)
  pub new_uuid_v7 : Option Bytes
  pub now : Time

-- The checks on the command itself.
unfoldable pub check_command : DeveloperIdentity → CloseCommand → Result Error (Unit {0})
check_command identity c = do
  reject (not (auth_id_is_valid identity.auth_id)) developer_identity_required
  reject (not (is_uuid_v7 c.application_id)) invalid_application_id
  reject (ltb_ℤ c.expected_ownership_revision (pos 1)) invalid_ownership_revision
  reject (ltb_ℤ c.expected_lifecycle_revision (pos 1)) invalid_lifecycle_revision
  reject (not (bytes_eq c.confirmation (codes "CLOSE_APPLICATION"))) invalid_close_confirmation
  reject
      (not (bytes_eq c.proof.subject identity.auth_id)
        || not (bytes_eq c.proof.application_id c.application_id)
        || is_empty c.proof.jti)
      high_risk_proof_invalid

-- Whether a failed search says that there is no closure.
abbrev pub is_absent : Error → Bool
is_absent application_closure_not_found = true
is_absent application_not_found = true
is_absent _ = false

-- What is answered at once, or that a closure may be started.
pub data ClosePlan : Type 0 where
  answer : Result Error Closure → ClosePlan
  start_with : Bytes → ClosePlan

abbrev pub fresh_status : AuthId → Option (List DeveloperLifecycle) → Result Error (Unit {0})
fresh_status admin (some (d ∷ [])) = do
  reject (not (bytes_eq d.auth_id admin)) developer_status_unavailable
  reject (not (is_eligible d)) developer_approval_required
fresh_status admin _ = err developer_status_unavailable

abbrev pub new_closure_id : Option Bytes → Result Error Bytes
new_closure_id none = err internal
new_closure_id (some id) = do reject (not (is_uuid_v7 id)) internal; ok id

abbrev pub planned : Result Error Bytes → ClosePlan
planned (err e) = answer (err e)
planned (ok id) = start_with id

-- After the search: an earlier closure by the same proof is answered again.
unfoldable pub plan_close :
    DeveloperIdentity
    → CloseCommand
    → Option (List DeveloperLifecycle)
    → Option Bytes
    → Result Error Closure
    → ClosePlan
unfolding is_eligible
plan_close identity c statuses new_id (ok existing) =
    if bytes_eq existing.high_risk_proof_jti c.proof.jti
    then answer (ok existing)
    else if c.proof_stale
    then answer (err high_risk_proof_invalid)
    else answer (err application_lifecycle_changed)
plan_close identity c statuses new_id (err e) =
    if c.proof_stale
    then answer (err (if not (is_absent e) then e else high_risk_proof_invalid))
    else planned (do
      reject (not (is_absent e)) e
      reject (not (is_approved identity.developer_status)) developer_approval_required
      fresh_status identity.auth_id statuses
      new_closure_id new_id)

module _ {S : Type 0} (ports : ClosePorts S) where
  abbrev pub request : DeveloperIdentity → CloseCommand → Bytes → StartRequest
  request identity c id = record {
    application_id = c.application_id;
    admin = identity.auth_id;
    ownership_revision = c.expected_ownership_revision;
    lifecycle_revision = c.expected_lifecycle_revision;
    proof = c.proof;
    closure_id = id;
    at = utc ports.now;
  }

  unfoldable pub carry_out :
      S → DeveloperIdentity → CloseCommand → ClosePlan → S × Result Error Closure
  carry_out s identity c (answer r) = (s, r)
  carry_out s identity c (start_with id) = ports.start s (request identity c id)

  -- After the checks on the command.
  unfoldable pub close_checked :
      S → DeveloperIdentity → CloseCommand → Result Error (Unit {0}) → S × Result Error Closure
  unfolding plan_close carry_out
  close_checked s identity c (err e) = (s, err e)
  close_checked s identity c (ok u) = carry_out s identity c (
      plan_close identity c (ports.get_fresh identity.auth_id) ports.new_uuid_v7
        (ports.find s c.application_id identity.auth_id))

  unfoldable pub close : S → DeveloperIdentity → CloseCommand → S × Result Error Closure
  unfolding check_command close_checked
  close s identity c = close_checked s identity c (check_command identity c)
