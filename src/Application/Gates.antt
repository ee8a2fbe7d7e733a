-- ===== src/Application/Gates.antt =====
-- internal/application/usecase/application_closure.go (Close): when a closure is started.
use iwut_app_center.Prelude.{
  pos, ltb_ℤ, true, false, not, Bool-cases, Option, none, some, List, [], ◌∷◌, Bytes, codes,
  bytes_eq, bytes_eq_iff, is_empty, Result, ok, err, ◌>>◌, reject, reject-ok, reject-passed,
  reject-end, check-passed, or_false, not-false, ◌≡◌, ◌⊎◌, inl, inr, refl, sym, ap, subst, arith,
}
use iwut_app_center.Shared.{AuthId, DeveloperIdentity, is_approved}
use iwut_app_center.Shared.Uuid.{is_uuid_v7}
use iwut_app_center.Application.{Error, internal, developer_approval_required}
use iwut_app_center.Application.Closure.{
  CloseCommand, Closure, DeveloperLifecycle, is_eligible, ClosePorts, check_command, is_absent,
  ClosePlan, answer, start_with, planned, fresh_status, new_closure_id, plan_close, request,
  carry_out, close_checked, close,
}

-- What the command itself is known to say.
pub record Confirmed (identity : DeveloperIdentity) (c : CloseCommand) : Type 0 where
  pub spelled : bytes_eq c.confirmation (codes "CLOSE_APPLICATION") ≡ true
  pub own_proof : c.proof.subject ≡ identity.auth_id
  pub bound_proof : c.proof.application_id ≡ c.application_id

check_command-Confirmed :
    (identity : DeveloperIdentity) (c : CloseCommand)
    → check_command identity c ≡ ok tt
    → Confirmed identity c
unfolding check_command
check_command-Confirmed identity c h =
    let (h0, r1) = reject-passed _ _ _ tt h in
    let (h1, r2) = reject-passed (not (is_uuid_v7 c.application_id)) _ _ tt r1 in
    let (h2, r3) = reject-passed (ltb_ℤ c.expected_ownership_revision (pos 1)) _ _ tt r2 in
    let (h3, r4) = reject-passed (ltb_ℤ c.expected_lifecycle_revision (pos 1)) _ _ tt r3 in
    let (spelled, r5) = reject-passed _ _ _ tt r4 in
    let (fit, named) = or_false _ (is_empty c.proof.jti) (reject-end _ _ r5) in
    let (own, bound) = or_false _ (not (bytes_eq c.proof.application_id c.application_id)) fit in
    record {
      spelled = not-false _ spelled;
      own_proof = (bytes_eq_iff c.proof.subject identity.auth_id).0 (not-false _ own);
      bound_proof = (bytes_eq_iff c.proof.application_id c.application_id).0 (not-false _ bound);
    }

-- What must hold for a closure to be started.
pub record Startable (identity : DeveloperIdentity) (c : CloseCommand)
    (statuses : Option (List DeveloperLifecycle)) (new_id : Option Bytes)
    (found : Result Error Closure) (id : Bytes) : Type 0 where
  pub current : c.proof_stale ≡ false
  pub approved : is_approved identity.developer_status ≡ true
  pub developer : DeveloperLifecycle
  pub asked : statuses ≡ some (developer ∷ [])
  pub same : developer.auth_id ≡ identity.auth_id
  pub eligible : is_eligible developer ≡ true
  pub active : developer.account_active ≡ true
  pub still_approved : is_approved developer.developer_status ≡ true
  pub reason : Error
  pub not_found : found ≡ err reason
  pub absent : is_absent reason ≡ true
  pub generated : new_id ≡ some id
  pub well_formed : is_uuid_v7 id ≡ true

fresh_status-eligible :
    (admin : AuthId) (o : Option (List DeveloperLifecycle))
    → fresh_status admin o ≡ ok tt
    → (d : DeveloperLifecycle) × (o ≡ some (d ∷ [])) × (d.auth_id ≡ admin) × (is_eligible d ≡ true)
fresh_status-eligible admin none h = absurd (ground arith)
fresh_status-eligible admin (some []) h = absurd (ground arith)
fresh_status-eligible admin (some (d ∷ e ∷ es)) h = absurd (ground arith)
fresh_status-eligible admin (some (d ∷ [])) h =
    let (same, h1) = reject-passed _ _ _ tt h in
    (d, refl, (bytes_eq_iff d.auth_id admin).0 (not-false _ same), not-false _ (reject-end _ _ h1))

is_eligible-parts :
    (d : DeveloperLifecycle)
    → is_eligible d ≡ true
    → (d.account_active ≡ true) × (is_approved d.developer_status ≡ true)
unfolding is_eligible
is_eligible-parts d h = ground arith

new_closure_id-eq :
    (o : Option Bytes) (id : Bytes)
    → new_closure_id o ≡ ok id
    → (o ≡ some id) × (is_uuid_v7 id ≡ true)
new_closure_id-eq none id h = absurd (ground arith)
new_closure_id-eq (some i) id h =
    let (fine, same) = reject-ok _ internal i id h in
    (ap some same, subst (λ x. is_uuid_v7 x ≡ true) same (not-false _ fine))

planned-eq : (r : Result Error Bytes) (id : Bytes) → planned r ≡ start_with id → r ≡ ok id
planned-eq (err e) id h = absurd (ground arith)
planned-eq (ok i) id h = ground arith

plan_close-Startable :
    (identity : DeveloperIdentity) (c : CloseCommand) (statuses : Option (List DeveloperLifecycle))
    (new_id : Option Bytes) (found : Result Error Closure) (id : Bytes)
    → plan_close identity c statuses new_id found ≡ start_with id
    → Startable identity c statuses new_id found id
unfolding plan_close
plan_close-Startable identity c statuses new_id (ok existing) id h = absurd (ground arith)
plan_close-Startable identity c statuses new_id (err e) id h = elim (Bool-cases c.proof_stale) [
  | inl stale ↦ absurd (ground arith)
  | inr current ↦
      let h0 =
        planned-eq
          (do
            reject (not (is_absent e)) e
            reject (not (is_approved identity.developer_status)) developer_approval_required
            fresh_status identity.auth_id statuses
            new_closure_id new_id)
          id (rw current at h) in
      let (absent, h1) = reject-passed _ _ _ id h0 in
      let (approved, h2) = reject-passed _ _ _ id h1 in
      let (fresh, h3) = check-passed (fresh_status identity.auth_id statuses) _ id h2 in
      let (d, asked, same, eligible) = fresh_status-eligible identity.auth_id statuses fresh in
      let (generated, well_formed) = new_closure_id-eq new_id id h3 in
      record {
        current = current;
        approved = not-false _ approved;
        developer = d;
        asked = asked;
        same = same;
        eligible = eligible;
        active = (is_eligible-parts d eligible).0;
        still_approved = (is_eligible-parts d eligible).1;
        reason = e;
        not_found = refl;
        absent = not-false _ absent;
        generated = generated;
        well_formed = well_formed;
      }
]

module _ {S : Type 0} (ports : ClosePorts S) where
  -- What has happened where Close asked the repository to start a closure.
  pub record Started (s s' : S) (identity : DeveloperIdentity) (c : CloseCommand)
      (r : Result Error Closure) : Type 0 where
    pub id : Bytes
    pub confirmed : Confirmed identity c
    pub startable :
        Startable identity c
          (ports.get_fresh identity.auth_id)
          ports.new_uuid_v7
          (ports.find s c.application_id identity.auth_id)
          id
    pub result : ports.start s (request ports identity c id) ≡ (s', r)

  -- Close either leaves the store as it was, or it asks the repository to start a closure: then the command
  -- is confirmed, its proof is the caller's own, current and for this application, the caller is approved
  -- and the directory has just said so and that the account is active, no closure was found, and the id is
  -- a new one.
  pub close-Started :
      (s s' : S) (identity : DeveloperIdentity) (c : CloseCommand) (r : Result Error Closure)
      → close ports s identity c ≡ (s', r)
      → (s' ≡ s) ⊎ Started s s' identity c r
  unfolding close close_checked carry_out
  close-Started s s' identity c r h = by_check (check_command identity c) refl h
    where
      statuses : Option (List DeveloperLifecycle)
      statuses = ports.get_fresh identity.auth_id

      found : Result Error Closure
      found = ports.find s c.application_id identity.auth_id

      by_plan :
          (p : ClosePlan)
          → check_command identity c ≡ ok tt
          → plan_close identity c statuses ports.new_uuid_v7 found ≡ p
          → carry_out ports s identity c p ≡ (s', r)
          → (s' ≡ s) ⊎ Started s s' identity c r
      by_plan (answer a) k e run = inl (sym (ap (λ x. x.0) run))
      by_plan (start_with id) k e run = inr (record {
        id = id;
        confirmed = check_command-Confirmed identity c k;
        startable = plan_close-Startable identity c statuses ports.new_uuid_v7 found id e;
        result = run;
      })

      by_check :
          (k : Result Error (Unit {0}))
          → check_command identity c ≡ k
          → close_checked ports s identity c k ≡ (s', r)
          → (s' ≡ s) ⊎ Started s s' identity c r
      by_check (err e) k run = inl (sym (ap (λ x. x.0) run))
      by_check (ok u) k run =
          by_plan (plan_close identity c statuses ports.new_uuid_v7 found) k refl run
