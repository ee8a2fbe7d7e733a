-- ===== src/Version/Abandonment.antt =====
-- internal/version/domain/application_version_abandonment.go: the record of a draft that was removed.
use iwut_app_center.Prelude.{
  ◌+◌, ◌*◌, ◌/◌, ℤ, pos, negsuc, ltb_ℤ, true, not, ◌||◌, Bytes, Result, ok, ◌>>◌, reject,
}
use iwut_app_center.Shared.{Time, is_zero, AuthId, auth_id_is_valid}
use iwut_app_center.Shared.Uuid.{is_uuid_v7}
use iwut_app_center.Version.{Error, internal}
use iwut_app_center.Version.Label.{label_is_valid}

pub record VersionAbandonment : Type 0 where
  pub id : Bytes
  pub application_id : Bytes
  pub version_id : Bytes
  pub sequence : ℤ  -- int32
  pub version_label : Bytes
  pub source_revision : ℤ  -- int64
  pub abandoned_by : AuthId
  pub abandoned_at : Time

-- Down to a whole millisecond since the zero time; an instant counts nanoseconds.
unfoldable pub truncate_to_millisecond : ℤ → ℤ
truncate_to_millisecond (pos n) = pos ((n / 1000000) * 1000000)
truncate_to_millisecond (negsuc n) = negsuc ((n / 1000000) * 1000000 + 999999)

unfoldable pub new_version_abandonment : VersionAbandonment → Result Error VersionAbandonment
unfolding label_is_valid truncate_to_millisecond
new_version_abandonment a = do
  reject
      (not (is_uuid_v7 a.id)
        || not (is_uuid_v7 a.application_id)
        || not (is_uuid_v7 a.version_id)
        || ltb_ℤ a.sequence (pos 1)
        || not (label_is_valid a.version_label)
        || ltb_ℤ a.source_revision (pos 1)
        || not (auth_id_is_valid a.abandoned_by)
        || is_zero a.abandoned_at)
      internal
  ok (record a {
    abandoned_at = record {
      instant = truncate_to_millisecond a.abandoned_at.instant;
      in_utc = true;
    };
  })
