-- ===== src/Encryption/Uri.antt =====
-- `parse_kms_uri`, `kms_cluster_from_domain` and `get_cluster_from_domain` of
-- `src/webex_kms_sdk/encryption.py`.
pub mod Laws
use webex_kms_sdk.Base.{
  ℕ, String, ◌<>◌, Bool, true, false, not, ◌&&◌, Option, none, some, List, [], ◌∷◌, ◌==◌, string_eq,
  contains, leb, if◌then◌else◌,
}
use webex_kms_sdk.Exceptions.{Result, ok, err, value_error}
use webex_kms_sdk.Text.{
  nonempty, count, strip_prefix, startswith, removeprefix, includes, cut, split_once,
}

abbrev pub kms_uri_prefix : String
kms_uri_prefix = "kms://"

-- The test on the parts of the split, and the pair that is returned.
abbrev pub uri_parts : String → List String → Result (String × String)
uri_parts key_uri (domain ∷ path ∷ []) =
    if nonempty domain && nonempty path
    then ok (domain, path)
    else err (value_error ("invalid KMS URI format (invalid structure): " <> key_uri))
uri_parts key_uri _ = err (value_error ("invalid KMS URI format (invalid structure): " <> key_uri))

-- `parse_kms_uri`. `key_uri[len(KMS_URI_PREFIX):]` is what follows the prefix.
unfoldable pub parse_kms_uri : String → Result (String × String)
parse_kms_uri key_uri = elim (strip_prefix key_uri kms_uri_prefix) [
  | none ↦ err (value_error ("invalid KMS URI format (missing prefix): " <> key_uri))
  | some without_prefix ↦ uri_parts key_uri (split_once "/" without_prefix)
]

-- `clean` of `kms_cluster_from_domain`
abbrev pub clean : String → String
clean value = removeprefix value "kms://"

-- The tests by which a domain is taken as a cluster.
abbrev pub is_kms_host : String → Bool
is_kms_host domain = startswith domain "kms-" && includes domain ".wbx2.com"

abbrev pub is_short_cluster : String → Bool
is_short_cluster domain = leb (count domain) 5 && not (includes domain ".")

-- `kms_cluster_from_domain`
unfoldable pub kms_cluster_from_domain : String → String → String
unfolding startswith removeprefix includes count
kms_cluster_from_domain domain default_kms_cluster =
    if nonempty domain
    then if is_kms_host (clean domain)
      then clean domain
      else if is_short_cluster (clean domain)
      then clean domain
      else clean default_kms_cluster
    else clean default_kms_cluster

-- `rest.split(".", 1)[0]`
abbrev pub before_dot : String → String
before_dot rest = elim (cut "." rest) [ none ↦ rest | some (a, _) ↦ a ]

-- `get_cluster_from_domain`, from the test on the short name on.
abbrev pub short_cluster_or_default : String → String → String
short_cluster_or_default domain default_cluster =
    if is_short_cluster domain
    then domain
    else if contains ("cisco.com" ∷ "ciscospark.com" ∷ []) domain
    then "a"
    else default_cluster

-- `get_cluster_from_domain`
unfoldable pub get_cluster_from_domain : String → String → String
unfolding startswith removeprefix includes count cut string_eq
get_cluster_from_domain domain default_cluster =
    if nonempty domain
    then if is_kms_host domain
      then (let cluster = before_dot (removeprefix domain "kms-") in
          if nonempty cluster then cluster else short_cluster_or_default domain default_cluster)
      else short_cluster_or_default domain default_cluster
    else default_cluster
