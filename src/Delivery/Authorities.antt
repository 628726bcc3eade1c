-- ===== src/Delivery/Authorities.antt =====
-- What `trusted_redirect` of crates/g7mb-application/src/delivery_security.rs lets pass.
use g7mediabooster.Base.{
  ℕ, ◌≡◌, refl, subst, ◌⊎◌, inl, inr, Bool, true, false, ◌&&◌, ◌||◌, List, [], ◌∷◌, Option, none,
  some, Bytes, codes, eq_bytes, eq_bytes_eq, is_empty, is_some, arith, Memᴰ, any-Memᴰ,
}
use g7mediabooster.Delivery.Redirects.{
  Url, UrlParser, is_loopback, is_plain, authority_of, is_allowed_host, is_trusted,
  trusted_redirect,
}

-- A URL without credentials and without a fragment, over https, or over http to this machine, whose
-- host and port are an allowed authority.
pub record IsTrusted (urls : UrlParser) (value : Bytes) (allowed : List Bytes) : Type 0 where
  pub url : Url
  pub parsed : urls.parse value ≡ some url
  pub username : url.username ≡ []
  pub password : url.password ≡ none
  pub fragment : url.fragment ≡ none
  pub scheme :
      (url.scheme ≡ codes "https")
      ⊎ ((url.scheme ≡ codes "http") × (is_loopback urls url.host ≡ true))
  pub host : Bytes
  pub hosted : url.host ≡ some host
  pub allows : Memᴰ (authority_of host url.port) allowed

empty : (xs : Bytes) → is_empty xs ≡ true → xs ≡ []
empty [] h = refl
empty (x ∷ xs) h = cc

absent : {A : Type 0} (o : Option A) → is_some o ≡ false → o ≡ none
absent none h = refl
absent (some a) h = cc

allowed_host :
    (allowed : List Bytes) (port : Option ℕ) (o : Option Bytes)
    → is_allowed_host allowed port o ≡ true
    → (host : Bytes) × (o ≡ some host) × Memᴰ (authority_of host port) allowed
allowed_host allowed port none h = cc
allowed_host allowed port (some host) h =
    let (a, m, same) = any-Memᴰ (λ a. eq_bytes a (authority_of host port)) allowed h in
    (host, refl, subst (λ x. Memᴰ x allowed) (eq_bytes_eq a (authority_of host port) same) m)

scheme_of :
    (https http loopback : Bool)
    → (https || (http && loopback)) ≡ true
    → (https ≡ true) ⊎ ((http ≡ true) × (loopback ≡ true))
scheme_of true http loopback h = inl refl
scheme_of false true true h = inr (refl, refl)
scheme_of false true false h = cc
scheme_of false false loopback h = cc

is_trusted-IsTrusted :
    (urls : UrlParser) (value : Bytes) (allowed : List Bytes) (o : Option Url)
    → urls.parse value ≡ o
    → is_trusted urls allowed o ≡ true
    → IsTrusted urls value allowed
is_trusted-IsTrusted urls value allowed none e h = cc
is_trusted-IsTrusted urls value allowed (some url) e h =
    let plain : is_plain urls url ≡ true = ground (arith, h) in
    let (host, hosted, allows) = allowed_host allowed url.port url.host (ground (arith, h)) in
    record {
      url = url;
      parsed = e;
      username = empty url.username (ground (arith, plain));
      password = absent url.password (ground (arith, plain));
      fragment = absent url.fragment (ground (arith, plain));
      scheme =
          elim (scheme_of (eq_bytes url.scheme (codes "https")) (eq_bytes url.scheme (codes "http"))
            (is_loopback urls url.host) (ground (arith, plain))) [
              | inl secure ↦ inl (eq_bytes_eq _ _ secure)
              | inr (plain_http, local) ↦ inr (eq_bytes_eq _ _ plain_http, local)
            ];
      host = host;
      hosted = hosted;
      allows = allows;
    }

pub trusted_redirect-IsTrusted :
    (urls : UrlParser) (value : Bytes) (allowed : List Bytes)
    → trusted_redirect urls value allowed ≡ true
    → IsTrusted urls value allowed
unfolding trusted_redirect
trusted_redirect-IsTrusted urls value allowed h =
    is_trusted-IsTrusted urls value allowed (urls.parse value) refl h
