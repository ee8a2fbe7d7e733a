-- ===== src/Application/Aggregate.antt =====
-- internal/application/domain/application.go and developer_application_quota.go.
use iwut_app_center.Prelude.{
  ℤ, pos, ltb_ℤ, inc_int32, Bool, true, false, not, ◌||◌, Bytes, Result, ok, ◌>>◌, ◌>>=◌, reject,
}
use iwut_app_center.Shared.{Time, is_zero, utc, AuthId, auth_id_is_valid}
use iwut_app_center.Shared.Uuid.{is_uuid_v7}
use iwut_app_center.Application.{Error, application_quota_exceeded, internal}
use iwut_app_center.Application.Name.{ApplicationName, name_is_valid}

-- `undefined` is a status that is none of the others, here and below.
pub data LifecycleStatus : Type 0 where
  active closing closed undefined : LifecycleStatus

pub data AvailabilityStatus : Type 0 where
  available suspended undefined : AvailabilityStatus

pub data ArchiveStatus : Type 0 where
  unarchived archived undefined : ArchiveStatus

pub record Application : Type 0 where
  pub id : Bytes
  pub name : ApplicationName
  pub admin_id : AuthId
  pub lifecycle_status : LifecycleStatus
  pub lifecycle_revision : ℤ  -- int64
  pub availability_status : AvailabilityStatus
  pub availability_revision : ℤ  -- int64
  pub archive_status : ArchiveStatus
  pub archive_revision : ℤ  -- int64
  pub created_at : Time

unfoldable pub new_application : Bytes → ApplicationName → AuthId → Time → Result Error Application
unfolding name_is_valid
new_application id name admin at = do
  reject
      (not (is_uuid_v7 id)
        || not (name_is_valid name)
        || not (auth_id_is_valid admin)
        || is_zero at)
      internal
  ok (record {
    id = id;
    name = name;
    admin_id = admin;
    lifecycle_status = active;
    lifecycle_revision = pos 1;
    availability_status = available;
    availability_revision = pos 1;
    archive_status = unarchived;
    archive_revision = pos 1;
    created_at = utc at;
  })

abbrev known_lifecycle : LifecycleStatus → Bool
known_lifecycle undefined = false
known_lifecycle _ = true

abbrev known_availability : AvailabilityStatus → Bool
known_availability undefined = false
known_availability _ = true

abbrev known_archive : ArchiveStatus → Bool
known_archive undefined = false
known_archive _ = true

unfoldable pub restore_application : Application → Result Error Application
unfolding new_application
restore_application a = do
  reject
      (not (known_lifecycle a.lifecycle_status)
        || ltb_ℤ a.lifecycle_revision (pos 1)
        || not (known_availability a.availability_status)
        || ltb_ℤ a.availability_revision (pos 1)
        || not (known_archive a.archive_status)
        || ltb_ℤ a.archive_revision (pos 1))
      internal
  value ← new_application a.id a.name a.admin_id a.created_at
  ok (record value {
    lifecycle_status = a.lifecycle_status;
    lifecycle_revision = a.lifecycle_revision;
    availability_status = a.availability_status;
    availability_revision = a.availability_revision;
    archive_status = a.archive_status;
    archive_revision = a.archive_revision;
  })

-- DeveloperApplicationQuota.
pub record Quota : Type 0 where
  pub admin_id : AuthId
  pub limit : ℤ  -- int32
  pub used_count : ℤ  -- int32

unfoldable pub new_quota : AuthId → ℤ → ℤ → Result Error Quota
new_quota admin limit used = do
  reject
      (not (auth_id_is_valid admin)
        || ltb_ℤ limit (pos 0)
        || ltb_ℤ used (pos 0)
        || ltb_ℤ limit used)
      internal
  ok (record { admin_id = admin; limit = limit; used_count = used })

unfoldable pub has_capacity : Quota → Bool
has_capacity q = ltb_ℤ q.used_count q.limit

unfoldable pub consume : Quota → Result Error Quota
unfolding has_capacity inc_int32
consume q = do
  reject (not (has_capacity q)) application_quota_exceeded
  ok (record q { used_count = inc_int32 q.used_count })
