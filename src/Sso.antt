-- ===== src/Sso.antt =====
-- app/src-tauri/src/sso.rs: the providers and sessions of the single sign-on, and their file. serde_json is the
-- parameter `Text`; `now` is the time in seconds.
pub mod Url
pub mod Login
pub mod Info
pub mod Laws
mod Tests
use secure_desk.Base.{
  ℕ, ◌+◌, ◌≡◌, Bool, true, false, not, ◌&&◌, Option, none, some, List, [], ◌∷◌, ◌++◌, map, is_empty,
  ltb, leb, ◌==◌, if◌then◌else◌, get_elem?,
}
use secure_desk.Base.Outcome.{Outcome, ok, err, panic}
use secure_desk.Base.Text.{text_eq, ascii}
use secure_desk.Sso.Url.{split_on}

pub record OidcProvider : Type 0 where
  pub name : List ℕ
  pub client_id : List ℕ
  pub client_secret : Option (List ℕ)
  pub authorization_endpoint : List ℕ
  pub token_endpoint : List ℕ
  pub userinfo_endpoint : Option (List ℕ)
  pub jwks_uri : Option (List ℕ)
  pub issuer : List ℕ
  pub scopes : List (List ℕ)
  pub use_pkce : Bool

abbrev pub default_scopes : List (List ℕ)
default_scopes = ascii "openid" ∷ ascii "profile" ∷ ascii "email" ∷ []

abbrev microsoft : List ℕ → List ℕ → List ℕ
microsoft tenant_id path = ascii "https://login.microsoftonline.com/" ++ (tenant_id ++ path)

unfoldable pub azure_ad : List ℕ → List ℕ → OidcProvider
azure_ad tenant_id client_id = record {
  name = ascii "Microsoft Azure AD";
  client_id = client_id;
  client_secret = none;
  authorization_endpoint = microsoft tenant_id (ascii "/oauth2/v2.0/authorize");
  token_endpoint = microsoft tenant_id (ascii "/oauth2/v2.0/token");
  userinfo_endpoint = some (ascii "https://graph.microsoft.com/oidc/userinfo");
  jwks_uri = some (microsoft tenant_id (ascii "/discovery/v2.0/keys"));
  issuer = microsoft tenant_id (ascii "/v2.0");
  scopes = default_scopes;
  use_pkce = true;
}

abbrev at_domain : List ℕ → List ℕ → List ℕ
at_domain domain path = ascii "https://" ++ (domain ++ path)

unfoldable pub okta : List ℕ → List ℕ → OidcProvider
okta domain client_id = record {
  name = ascii "Okta";
  client_id = client_id;
  client_secret = none;
  authorization_endpoint = at_domain domain (ascii "/oauth2/v1/authorize");
  token_endpoint = at_domain domain (ascii "/oauth2/v1/token");
  userinfo_endpoint = some (at_domain domain (ascii "/oauth2/v1/userinfo"));
  jwks_uri = some (at_domain domain (ascii "/oauth2/v1/keys"));
  issuer = at_domain domain [];
  scopes = default_scopes;
  use_pkce = true;
}

unfoldable pub google : List ℕ → List ℕ → OidcProvider
google client_id client_secret = record {
  name = ascii "Google";
  client_id = client_id;
  client_secret = some client_secret;
  authorization_endpoint = ascii "https://accounts.google.com/o/oauth2/v2/auth";
  token_endpoint = ascii "https://oauth2.googleapis.com/token";
  userinfo_endpoint = some (ascii "https://openidconnect.googleapis.com/v1/userinfo");
  jwks_uri = some (ascii "https://www.googleapis.com/oauth2/v3/certs");
  issuer = ascii "https://accounts.google.com";
  scopes = default_scopes;
  use_pkce = true;
}

-- `extra` is the text of the claims that have no field.
pub record UserInfo : Type 0 where
  pub sub : List ℕ
  pub name : Option (List ℕ)
  pub email : Option (List ℕ)
  pub email_verified : Option Bool
  pub preferred_username : Option (List ℕ)
  pub picture : Option (List ℕ)
  pub extra : List ℕ

pub record SsoSession : Type 0 where
  pub user : UserInfo
  pub access_token : List ℕ
  pub expires_at : ℕ
  pub refresh_token : Option (List ℕ)
  pub id_token : Option (List ℕ)
  pub provider : List ℕ

unfoldable pub is_expired : ℕ → SsoSession → Bool
is_expired now s = leb s.expires_at now

unfoldable pub needs_refresh : ℕ → SsoSession → Bool
needs_refresh now s = leb s.expires_at (now + 300)

pub record SsoConfig : Type 0 where
  pub providers : List OidcProvider
  pub active_session : Option SsoSession
  pub require_sso : Bool
  pub allowed_domains : List (List ℕ)

abbrev pub default_config : SsoConfig
default_config = record {
  providers = [];
  active_session = none;
  require_sso = false;
  allowed_domains = [];
}

pub record Text : Type 0 where
  pub to_string_pretty : SsoConfig → List ℕ
  pub from_str : List ℕ → Option SsoConfig

pub data SsoError : Type 0 where
  io bad_json : SsoError
  timeout invalid_request missing_state invalid_state missing_code no_userinfo_endpoint : SsoError
  oauth_error : List ℕ → List ℕ → SsoError
  exchange_failed user_info_failed : SsoError
  domain_not_allowed : List ℕ → SsoError
  no_active_session no_refresh_token provider_not_found refresh_failed : SsoError

-- The file, if there is one, and whether it can be written; `left` is what a
-- write that fails leaves of it.
pub record Store : Type 0 where
  pub file : Option (List ℕ)
  pub writable : Bool
  pub left : Option (List ℕ)

abbrev pub Signed : Type 0 → Type 0
Signed A = Outcome SsoError A × SsoConfig × Store

-- `to_ascii_lowercase` of `eq_ignore_ascii_case`
abbrev pub lower : List ℕ → List ℕ
lower [] = []
lower (b ∷ bs) =
    let rest = lower bs in if leb b'A' b && leb b b'Z' then (b + 32) ∷ rest else b ∷ rest

abbrev pub has_domain : List ℕ → List (List ℕ) → Bool
has_domain domain [] = false
has_domain domain (d ∷ ds) =
    let rest = has_domain domain ds in if text_eq (lower d) (lower domain) then true else rest

unfoldable pub is_domain_allowed : List ℕ → SsoConfig → Bool
unfolding split_on
is_domain_allowed email c =
    if is_empty c.allowed_domains then true else elim (get_elem? (split_on b'@' email) 1) [
      | none ↦ false
      | some domain ↦ has_domain domain c.allowed_domains
    ]

unfoldable pub get_provider : List ℕ → List OidcProvider → Option OidcProvider
get_provider name [] = none
get_provider name (p ∷ ps) =
    let rest = get_provider name ps in if text_eq p.name name then some p else rest

-- `retain(|p| p.name != name)`
unfoldable pub without_provider : List ℕ → List OidcProvider → List OidcProvider
without_provider name [] = []
without_provider name (p ∷ ps) =
    let rest = without_provider name ps in if text_eq p.name name then rest else p ∷ rest

unfoldable pub current_session : ℕ → SsoConfig → Option SsoSession
unfolding is_expired
current_session now c = elim c.active_session [
  | none ↦ none
  | some s ↦ if is_expired now s then none else some s
]

module _ (t : Text) where
  unfoldable pub save : SsoConfig → Store → Outcome SsoError (Unit {0}) × Store
  save c s =
      if s.writable
      then (ok tt, record s { file = some (t.to_string_pretty c) })
      else (err io, record s { file = s.left })

  -- The configuration is changed in memory also where it cannot be saved.
  abbrev pub saved : SsoConfig → Store → Signed (Unit {0})
  saved c s = let written = save c s in (written.0, c, written.1)

  unfoldable pub load : Store → Outcome SsoError SsoConfig
  load s = elim s.file [
    | none ↦ ok default_config
    | some bytes ↦ elim (t.from_str bytes) [ none ↦ err bad_json | some c ↦ ok c ]
  ]

  unfoldable pub add_provider : OidcProvider → SsoConfig → Store → Signed (Unit {0})
  unfolding save without_provider
  add_provider p c =
      saved (record c { providers = without_provider p.name c.providers ++ (p ∷ []) })

  unfoldable pub remove_provider : List ℕ → SsoConfig → Store → Signed (Unit {0})
  unfolding save without_provider
  remove_provider name c = saved (record c { providers = without_provider name c.providers })

  unfoldable pub set_session : SsoSession → SsoConfig → Store → Signed (Unit {0})
  unfolding save
  set_session session c = saved (record c { active_session = some session })

  unfoldable pub clear_session : SsoConfig → Store → Signed (Unit {0})
  unfolding save
  clear_session c = saved (record c { active_session = none })

  unfoldable pub set_allowed_domains : List (List ℕ) → SsoConfig → Store → Signed (Unit {0})
  unfolding save
  set_allowed_domains domains c = saved (record c { allowed_domains = domains })

  unfoldable pub set_require_sso : Bool → SsoConfig → Store → Signed (Unit {0})
  unfolding save
  set_require_sso required c = saved (record c { require_sso = required })
