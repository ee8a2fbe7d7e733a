-- ===== src/Version/Urls.antt =====
-- internal/version/domain/launch_url.go, over net/url and net as parameters.
use iwut_app_center.Prelude.{
  ℕ, ltb, ◌==◌, Bool, true, false, not, ◌&&◌, ◌||◌, Option, none, some, List, [], ◌∷◌, Bytes, codes,
  bytes_eq, is_empty, length, Result, ok, err, ◌>>◌, reject, if◌then◌else◌,
}
use iwut_app_center.Version.{Error, invalid_launch_url}

-- What url.Parse finds in a text.
pub record ParsedUrl : Type 0 where
  pub scheme : Bytes
  pub host : Bytes
  pub hostname : Bytes
  pub has_user : Bool
  pub fragment : Bytes
  pub raw_query : Bytes

-- What net.ParseIP finds: whether To4 is there, and what the methods answer.
pub record Ip : Type 0 where
  pub is_v4 : Bool
  pub is_loopback : Bool
  pub is_private : Bool
  pub is_link_local_unicast : Bool

-- url.Parse, net.ParseIP, the keys that url.ParseQuery finds, and strings.ToLower.
pub record Urls : Type 0 where
  pub parse : Bytes → Option ParsedUrl
  pub parse_ip : Bytes → Option Ip
  pub query_keys : Bytes → Option (List Bytes)
  pub to_lower : Bytes → Bytes

abbrev pub maximum_launch_url_bytes : ℕ
maximum_launch_url_bytes = 2048

-- strings.HasSuffix.
unfoldable pub has_suffix : Bytes → Bytes → Bool
has_suffix [] suffix = is_empty suffix
has_suffix (c ∷ cs) suffix = bytes_eq (c ∷ cs) suffix || has_suffix cs suffix

-- strings.TrimSuffix(host, ".").
unfoldable pub trim_dot : Bytes → Bytes
trim_dot [] = []
trim_dot (c ∷ []) = if c == b'.' then [] else c ∷ []
trim_dot (c ∷ d ∷ ds) = c ∷ trim_dot (d ∷ ds)

-- The fields of LaunchURL.
pub record LaunchUrl : Type 0 where
  pub value : Bytes
  pub developmental : Bool

-- The part of isDevelopmentHost that asks net.ParseIP.
abbrev is_development_ip : Option Ip → Bool
is_development_ip none = false
is_development_ip (some ip) =
    if ip.is_v4
    then ip.is_loopback || ip.is_private
    else ip.is_loopback || ip.is_private || ip.is_link_local_unicast

abbrev pub same_url : LaunchUrl → Result Error LaunchUrl → Bool
same_url u (err e) = false
same_url u (ok v) =
    bytes_eq v.value u.value && (if v.developmental then u.developmental else not u.developmental)

module _ (urls : Urls) where
  unfoldable pub is_development_host : Bytes → Bool
  unfolding has_suffix trim_dot
  is_development_host given =
      let host = trim_dot (urls.to_lower given) in
      bytes_eq host (codes "localhost")
      || has_suffix host (codes ".localhost")
      || has_suffix host (codes ".local")
      || is_development_ip (urls.parse_ip host)

  abbrev by_scheme : Bytes → Bytes → Bytes → Result Error LaunchUrl
  by_scheme value scheme hostname =
      if bytes_eq scheme (codes "https")
      then ok (record { value = value; developmental = false })
      else if bytes_eq scheme (codes "http") && is_development_host hostname
      then ok (record { value = value; developmental = true })
      else err invalid_launch_url

  abbrev checked_url : Bytes → Option ParsedUrl → Result Error LaunchUrl
  checked_url value none = err invalid_launch_url
  checked_url value (some u) = do
    reject (is_empty u.scheme || is_empty u.host || is_empty u.hostname || u.has_user)
        invalid_launch_url
    by_scheme value (urls.to_lower u.scheme) u.hostname

  unfoldable pub new_launch_url : Bytes → Result Error LaunchUrl
  new_launch_url value = do
    reject (length value == 0 || ltb maximum_launch_url_bytes (length value)) invalid_launch_url
    checked_url value (urls.parse value)

  unfoldable pub launch_url_is_valid : LaunchUrl → Bool
  unfolding new_launch_url
  launch_url_is_valid u = same_url u (new_launch_url u.value)
