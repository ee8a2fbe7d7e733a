-- ===== src/Publication/Cohort.antt =====
-- internal/publication/domain/grey.go (Matches): which users see the grey version. HMAC-SHA256 is
-- crypto/hmac's, and is taken as a function of the key and the message.
use iwut_app_center.Prelude.{
  ℕ, ◌+◌, ◌*◌, ◌/◌, ◌%◌, ◌-◌, ◌≡◌, ℤ, pos, negsuc, ◌≤ℤ◌, ltb, Bool, true, false, not, Option, none,
  some, [], ◌∷◌, ◌++◌, Bytes, codes, length, take, arith, if◌then◌else◌,
}
use iwut_app_center.Shared.{AuthId, auth_id_is_valid}
use iwut_app_center.Publication.{GreyRollout}

-- binary.BigEndian.PutUint32 of a uint32.
abbrev put_uint32 : ℕ → Bytes
put_uint32 n = (n / 16777216 % 256) ∷ (n / 65536 % 256) ∷ (n / 256 % 256) ∷ (n % 256) ∷ []

-- binary.BigEndian.Uint64 of eight bytes, read with what came before.
uint64_from : ℕ → Bytes → ℕ
uint64_from acc [] = acc
uint64_from acc (b ∷ bs) = uint64_from (acc * 256 + b) bs

-- The framed message: the label, a zero byte, the length as a uint32, and the identity.
unfoldable pub cohort_message : AuthId → Bytes
cohort_message auth = codes "iwut-grey-v1" ++ (0 ∷ (put_uint32 (length auth % 4294967296) ++ auth))

-- `uint64(x)` of an int32 keeps the sign's bits.
abbrev uint64_of : ℤ → ℕ
uint64_of (pos n) = n
uint64_of (negsuc n) = 18446744073709551615 - n

module _ (hmac_sha256 : Bytes → Bytes → Bytes) where
  unfoldable pub bucket : GreyRollout → AuthId → ℕ
  unfolding uint64_from cohort_message
  bucket r auth = uint64_from 0 (take 8 (hmac_sha256 r.cohort_seed (cohort_message auth))) % 10000

  unfoldable pub matches : Option GreyRollout → AuthId → Bool
  matches none auth = false
  matches (some r) auth =
      if not (auth_id_is_valid auth)
      then false
      else ltb (bucket r auth) (uint64_of r.exposure_basis_points)

  -- At full exposure a rollout shows its version to every user with an identity.
  pub matches_all_users :
      (r : GreyRollout) (auth : AuthId)
      → r.exposure_basis_points ≡ pos 10_000
      → auth_id_is_valid auth ≡ true
      → matches (some r) auth ≡ true
  unfolding matches bucket
  matches_all_users r auth full valid = ground arith

  bucket-seed :
      (r s : GreyRollout) (auth : AuthId)
      → r.cohort_seed ≡ s.cohort_seed
      → bucket r auth ≡ bucket s auth
  unfolding bucket
  bucket-seed r s auth e = rw e

  -- Two rollouts on one seed and with exposures in range: who sees the one of the smaller exposure
  -- sees the other too.
  pub matches_mono :
      (r s : GreyRollout) (auth : AuthId)
      → r.cohort_seed ≡ s.cohort_seed
      → pos 1 ≤ℤ r.exposure_basis_points
      → r.exposure_basis_points ≤ℤ s.exposure_basis_points
      → matches (some r) auth ≡ true
      → matches (some s) auth ≡ true
  unfolding matches
  matches_mono r s auth seed low le h = ground (arith, bucket-seed r s auth seed)
