-- ===== src/Sso/Info.antt =====
-- app/src-tauri/src/sso.rs: what is shown of the sessions, and a provider that is described by a document.
use secure_desk.Base.{ℕ, Bool, true, false, Option, none, some, List, [], ◌∷◌}
use secure_desk.Base.Text.{ascii}
use secure_desk.Sso.{OidcProvider, SsoSession, SsoConfig, default_scopes, current_session}

pub record OidcDiscovery : Type 0 where
  pub issuer : List ℕ
  pub authorization_endpoint : List ℕ
  pub token_endpoint : List ℕ
  pub userinfo_endpoint : Option (List ℕ)
  pub jwks_uri : Option (List ℕ)

unfoldable pub from_discovery : OidcDiscovery → List ℕ → OidcProvider
from_discovery discovery client_id = record {
  name = ascii "Custom OIDC";
  client_id = client_id;
  client_secret = none;
  authorization_endpoint = discovery.authorization_endpoint;
  token_endpoint = discovery.token_endpoint;
  userinfo_endpoint = discovery.userinfo_endpoint;
  jwks_uri = discovery.jwks_uri;
  issuer = discovery.issuer;
  scopes = default_scopes;
  use_pkce = true;
}

pub record SsoInfo : Type 0 where
  pub is_authenticated : Bool
  pub user_name : Option (List ℕ)
  pub user_email : Option (List ℕ)
  pub provider : Option (List ℕ)
  pub expires_at : Option ℕ
  pub require_sso : Bool
  pub providers : List (List ℕ)

unfoldable pub list_providers : List OidcProvider → List (List ℕ)
list_providers [] = []
list_providers (p ∷ ps) = p.name ∷ list_providers ps

abbrev pub info_of : Option SsoSession → SsoConfig → SsoInfo
info_of none c = record {
  is_authenticated = false;
  user_name = none;
  user_email = none;
  provider = none;
  expires_at = none;
  require_sso = c.require_sso;
  providers = list_providers c.providers;
}
info_of (some s) c = record {
  is_authenticated = true;
  user_name = s.user.name;
  user_email = s.user.email;
  provider = some s.provider;
  expires_at = some s.expires_at;
  require_sso = c.require_sso;
  providers = list_providers c.providers;
}

unfoldable pub from_manager : ℕ → SsoConfig → SsoInfo
unfolding current_session list_providers
from_manager now c = info_of (current_session now c) c
