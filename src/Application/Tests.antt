-- ===== src/Application/Tests.antt =====
-- A quota and a closure at concrete input. The store here is the list of the closures.
use iwut_app_center.Prelude.{
  pos, inc_int32, ◌+ℤ◌, true, false, some, List, [], ◌∷◌, Bytes, bytes_eq, codes, Result, ok, err,
  ◌≡◌, ◌⊎◌, refl,
}
use iwut_app_center.Shared.{auth_id_is_valid, approved, DeveloperIdentity}
use iwut_app_center.Shared.Uuid.{is_uuid_v7, to_lower, lower}
use iwut_app_center.Application.{
  Error, application_quota_exceeded, application_closure_not_found, invalid_application_name,
  high_risk_proof_invalid,
}
use iwut_app_center.Application.Name.{new_application_name, name_is_valid}
use iwut_app_center.Application.Aggregate.{Quota, new_quota, has_capacity, consume}
use iwut_app_center.Application.Quota.{consume_bounds}
use iwut_app_center.Application.Closure.{
  CloseCommand, Closure, is_eligible, ClosePorts, check_command, plan_close, carry_out,
  close_checked, close,
}
use iwut_app_center.Application.Gates.{Started, close-Started}

unfoldable tests : Unit {0}
unfolding bytes_eq auth_id_is_valid is_uuid_v7 to_lower lower inc_int32 new_application_name
    name_is_valid new_quota has_capacity consume is_eligible check_command plan_close carry_out
    close_checked close
tests = tt

name_folded :
    new_application_name (codes "My-App")
    ≡ ok (record { value = codes "My-App"; key = codes "my-app" })
unfolding tests
name_folded = refl

space_refused : new_application_name (codes "My App") ≡ err invalid_application_name
unfolding tests
space_refused = refl

abbrev quota : Quota
quota = record { admin_id = codes "7"; limit = pos 10; used_count = pos 9 }

abbrev full_quota : Quota
full_quota = record { admin_id = codes "7"; limit = pos 10; used_count = pos 10 }

quota_accepted : new_quota (codes "7") (pos 10) (pos 9) ≡ ok quota
unfolding tests
quota_accepted = refl

quota_consumed : consume quota ≡ ok full_quota
unfolding tests
quota_consumed = refl

quota_exceeded : consume full_quota ≡ err application_quota_exceeded
unfolding tests
quota_exceeded = refl

consume_bounds_example :
    (pos 10 ≡ (pos 9 +ℤ pos 1)) × (new_quota (codes "7") (pos 10) (pos 10) ≡ ok full_quota)
consume_bounds_example = consume_bounds quota full_quota refl quota_accepted quota_consumed

abbrev app : Bytes
app = codes "01890a5d-ac96-774b-bcce-b302099a8057"

abbrev closure_id : Bytes
closure_id = codes "01890a5d-ac96-774b-bcce-b302099a8058"

abbrev identity : DeveloperIdentity
identity = record { auth_id = codes "7"; developer_status = approved }

abbrev command : CloseCommand
command = record {
  application_id = app;
  expected_ownership_revision = pos 1;
  expected_lifecycle_revision = pos 1;
  confirmation = codes "CLOSE_APPLICATION";
  proof = record {
    subject = codes "7";
    application_id = app;
    jti = codes "jti";
    auth_time = record { instant = pos 800; in_utc = true };
    issued_at = record { instant = pos 900; in_utc = true };
    expires_at = record { instant = pos 1200; in_utc = true };
  };
  proof_stale = false;
}

abbrev closing : Closure
closing = record { closure_id = closure_id; high_risk_proof_jti = codes "jti" }

first_closure : List Closure → Result Error Closure
first_closure [] = err application_closure_not_found
first_closure (c ∷ cs) = ok c

abbrev ports : ClosePorts (List Closure)
ports = record {
  find = λ s id admin. first_closure s;
  start = λ s request. (
    record { closure_id = request.closure_id; high_risk_proof_jti = request.proof.jti } ∷ s,
    ok (record { closure_id = request.closure_id; high_risk_proof_jti = request.proof.jti }),
  );
  get_fresh = λ admin.
      some (record { auth_id = admin; account_active = true; developer_status = approved } ∷ []);
  new_uuid_v7 = some closure_id;
  now = record { instant = pos 1000; in_utc = true };
}

closure_started : close ports [] identity command ≡ (closing ∷ [], ok closing)
unfolding tests first_closure
closure_started = refl

same_proof_replayed :
    close ports (closing ∷ []) identity (record command { proof_stale = true })
    ≡ (closing ∷ [], ok closing)
unfolding tests first_closure
same_proof_replayed = refl

stale_proof_refused :
    close ports [] identity (record command { proof_stale = true })
    ≡ ([], err high_risk_proof_invalid)
unfolding tests first_closure
stale_proof_refused = refl

close-Started_example :
    (closing ∷ [] ≡ []) ⊎ Started ports [] (closing ∷ []) identity command (ok closing)
close-Started_example =
    close-Started ports [] (closing ∷ []) identity command (ok closing) closure_started
