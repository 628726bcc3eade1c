-- ===== src/Delivery/Redirects.antt =====
-- crates/g7mb-application/src/delivery_security.rs: the delivery policy and the authorities of
-- signed URLs. `Url::parse` and the parsing of addresses are parameters.
use g7mediabooster.Base.{
  ℕ, ◌+◌, ◌*◌, Bool, false, ◌&&◌, ◌||◌, not, List, [], ◌∷◌, ◌++◌, Option, none, some, Bytes, codes,
  eq_bytes, all, any, length, is_empty, is_some, leb, ◌==◌, within, if◌then◌else◌, identifier_byte,
  is_ascii_lowercase, is_ascii_uppercase, is_ascii_digit,
}
use g7mediabooster.Ports.{Duration, from_secs}
use g7mediabooster.Auth.{show, pos}

pub record DerivativeDeliveryPolicy : Type 0 where
  pub signed_url_ttl : Duration
  pub manifest_cache_ttl : Duration
  pub manifest_cache_max_bytes : ℕ
  pub redirect_allowed_authorities : List Bytes

abbrev pub default_delivery_policy : DerivativeDeliveryPolicy
default_delivery_policy = record {
  signed_url_ttl = from_secs (5 * 60);
  manifest_cache_ttl = from_secs 60;
  manifest_cache_max_bytes = 4 * 1024 * 1024;
  redirect_allowed_authorities = codes "private.invalid" ∷ [];
}

-- `u8::to_ascii_lowercase`.
abbrev pub lower_byte : ℕ → ℕ
lower_byte b = if is_ascii_uppercase b then b + 32 else b

abbrev pub to_ascii_lowercase : Bytes → Bytes
to_ascii_lowercase [] = []
to_ascii_lowercase (b ∷ bs) = lower_byte b ∷ to_ascii_lowercase bs

abbrev pub authority_byte : ℕ → Bool
authority_byte b =
    is_ascii_lowercase b
    || is_ascii_digit b
    || b == b'.'
    || b == b'-'
    || b == b':'
    || b == b'['
    || b == b']'

abbrev pub is_authority : Bytes → Bool
is_authority authority =
    not (is_empty authority)
    && leb (length authority) 512
    && eq_bytes authority (to_ascii_lowercase authority)
    && all authority_byte authority

-- `DerivativeDeliveryPolicy::is_valid`.
unfoldable pub policy_is_valid : DerivativeDeliveryPolicy → Bool
policy_is_valid p =
    within (from_secs 30) (from_secs (15 * 60)) p.signed_url_ttl
    && within (from_secs 1) (from_secs (5 * 60)) p.manifest_cache_ttl
    && leb p.manifest_cache_ttl p.signed_url_ttl
    && within (64 * 1024) (64 * 1024 * 1024) p.manifest_cache_max_bytes
    && not (is_empty p.redirect_allowed_authorities)
    && leb (length p.redirect_allowed_authorities) 8
    && all is_authority p.redirect_allowed_authorities

unfoldable pub valid_preset : Bytes → Bool
valid_preset value = not (is_empty value) && leb (length value) 128 && all identifier_byte value

unfoldable pub valid_tenant : Bytes → Bool
valid_tenant value = not (is_empty value) && leb (length value) 64 && all identifier_byte value

-- What the code reads of a parsed URL.
pub record Url : Type 0 where
  pub scheme : Bytes
  pub username : Bytes
  pub password : Option Bytes
  pub host : Option Bytes
  pub port : Option ℕ
  pub fragment : Option Bytes

pub record UrlParser : Type 0 where
  pub parse : Bytes → Option Url
  pub is_loopback_address : Bytes → Bool

abbrev pub is_loopback : UrlParser → Option Bytes → Bool
is_loopback urls none = false
is_loopback urls (some host) =
    eq_bytes (to_ascii_lowercase host) (codes "localhost") || urls.is_loopback_address host

-- The scheme is https, or http to this machine, and nothing but a path and a query follows.
abbrev pub is_plain : UrlParser → Url → Bool
is_plain urls url =
    is_empty url.username
    && not (is_some url.password)
    && not (is_some url.fragment)
    && (eq_bytes url.scheme (codes "https")
        || (eq_bytes url.scheme (codes "http") && is_loopback urls url.host))

-- The authority of a host and a port.
abbrev pub authority_of : Bytes → Option ℕ → Bytes
authority_of host none = to_ascii_lowercase host
authority_of host (some port) =
    if any (λ b. b == b':') host
    then codes "[" ++ (to_ascii_lowercase host ++ (codes "]:" ++ show (pos port)))
    else to_ascii_lowercase host ++ (codes ":" ++ show (pos port))

abbrev pub is_allowed_host : List Bytes → Option ℕ → Option Bytes → Bool
is_allowed_host allowed port none = false
is_allowed_host allowed port (some host) = any (λ a. eq_bytes a (authority_of host port)) allowed

abbrev pub is_trusted : UrlParser → List Bytes → Option Url → Bool
is_trusted urls allowed none = false
is_trusted urls allowed (some url) = is_plain urls url && is_allowed_host allowed url.port url.host

unfoldable pub trusted_redirect : UrlParser → Bytes → List Bytes → Bool
trusted_redirect urls value allowed_authorities =
    is_trusted urls allowed_authorities (urls.parse value)
