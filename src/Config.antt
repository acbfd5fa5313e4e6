-- ===== src/Config.antt =====
-- internal/config/config.go: what a configuration is refused for. An error is the value behind its
-- message.
pub mod Accepts
use gitdr.Common.{
  ℕ, ◌+◌, ◌*◌, ◌^◌, Bool, true, false, not, ◌&&◌, ◌||◌, Option, none, some, List, [], ◌∷◌, Text,
  codes, text_eq, length, is_nil, trim_space, to_upper, map, if◌then◌else◌, ltb, leb, is_digit, ℤ,
  pos, negsuc, is_neg, le_zero, lt_int,
}

-- The fields that are validated.
pub record DestinationConfig : Type 0 where
  pub kind : Text
  pub s3_bucket : Text
  pub multipart_threshold : ℤ
  pub part_size : ℤ
  pub gcs_bucket : Text
  pub azure_container : Text
  pub azure_account : Text
  pub retention_mode : Text
  pub retention_days : ℤ

pub record GithubConfig : Type 0 where
  pub private_key : Text
  pub private_key_path : Text
  pub token_path : Text
  pub max_rate_limit_wait : ℤ

pub record Config : Type 0 where
  pub source_kind : Text
  pub github : GithubConfig
  pub destination : DestinationConfig

-- `part_out_of_range` stands for either multipart setting: a range over a map of the two says which
-- is named where both are out of range.
pub data ConfigFault : Type 0 where
  source_unsupported s3_bucket_required part_out_of_range gcs_bucket_required : ConfigFault
  azure_container_required bad_azure_account destination_unsupported : ConfigFault
  bad_retention_mode bad_retention_days negative_wait : ConfigFault

abbrev pub min_s3_part_size : ℤ
min_s3_part_size = pos (5 * 2 ^ 20)

abbrev pub max_s3_part_size : ℤ
max_s3_part_size = pos (5 * 2 ^ 30)

abbrev pub is_zero : ℤ → Bool
is_zero (pos n) = leb n 0
is_zero (negsuc _) = false

abbrev pub part_fits : ℤ → Bool
part_fits v = not (not (is_zero v) && (lt_int v min_s3_part_size || lt_int max_s3_part_size v))

abbrev pub account_byte : ℕ → Bool
account_byte c = (leb b'a' c && leb c b'z') || is_digit c

abbrev pub all_bytes : (ℕ → Bool) → Text → Bool
all_bytes f [] = true
all_bytes f (c ∷ s) = f c && all_bytes f s

-- `^[a-z0-9]{3,24}$`.
abbrev pub azure_account : Text → Bool
azure_account s = leb 3 (length s) && leb (length s) 24 && all_bytes account_byte s

unfoldable pub validate_s3 : DestinationConfig → Option ConfigFault
validate_s3 d =
    if is_nil (trim_space d.s3_bucket)
    then some s3_bucket_required
    else if part_fits d.multipart_threshold && part_fits d.part_size
    then none
    else some part_out_of_range

unfoldable pub validate_gcs : DestinationConfig → Option ConfigFault
validate_gcs d = if is_nil (trim_space d.gcs_bucket) then some gcs_bucket_required else none

unfoldable pub validate_azure : DestinationConfig → Option ConfigFault
validate_azure d =
    if is_nil (trim_space d.azure_container)
    then some azure_container_required
    else if not (is_nil d.azure_account) && not (azure_account d.azure_account)
    then some bad_azure_account
    else none

-- The switch over the destination's type.
unfoldable pub validate_kind : DestinationConfig → Option ConfigFault
unfolding validate_s3 validate_gcs validate_azure
validate_kind d =
    if text_eq d.kind (codes "s3")
    then validate_s3 d
    else if text_eq d.kind (codes "gcs")
    then validate_gcs d
    else if text_eq d.kind (codes "azure")
    then validate_azure d
    else some destination_unsupported

abbrev pub mode_known : Text → Bool
mode_known mode =
    let m = to_upper (trim_space mode) in
    text_eq m (codes "COMPLIANCE") || text_eq m (codes "GOVERNANCE")

unfoldable pub validate_retention : Config → Option ConfigFault
validate_retention c =
    if not (mode_known c.destination.retention_mode)
    then some bad_retention_mode
    else if le_zero c.destination.retention_days
    then some bad_retention_days
    else if is_neg c.github.max_rate_limit_wait
    then some negative_wait
    else none

-- `ValidateDestination`.
unfoldable pub validate_destination : Config → Option ConfigFault
unfolding validate_kind validate_retention
validate_destination c = elim (validate_kind c.destination) [
  | some fault ↦ some fault
  | none ↦ validate_retention c
]

-- `Validate`.
unfoldable pub validate : Config → Option ConfigFault
unfolding validate_destination
validate c =
    if text_eq c.source_kind (codes "github") || text_eq c.source_kind (codes "gitlab")
    then validate_destination c
    else some source_unsupported

pub data CredentialFault : Type 0 where
  both_credentials no_credential : CredentialFault

pub data Credential : Type 0 where
  token_file : Text → Credential
  app_key : Credential
  refused : CredentialFault → Credential

-- `GitHubTokenFile`.
unfoldable pub github_token_file : GithubConfig → Credential
github_token_file g =
    let path = trim_space g.token_path in
    let has_key =
      not (is_nil (trim_space g.private_key)) || not (is_nil (trim_space g.private_key_path)) in
    if not (is_nil path) && has_key
    then refused both_credentials
    else if not (is_nil path)
    then token_file path
    else if has_key
    then app_key
    else refused no_credential
