-- ===== src/App/Login.antt =====
-- app/src-tauri/src/main.rs: the commands for single sign-on. The URL of a login has a state and, where the provider uses
-- PKCE, a challenge, which are arguments; so is the line that the callback reads.
pub mod Verifier
use secure_desk.Base.{ℕ, Bool, true, false, Option, none, some, List, [], ◌∷◌, if◌then◌else◌}
use secure_desk.Base.Outcome.{Outcome, ok, err, panic}
use secure_desk.Base.Text.{text_eq, ascii}
use secure_desk.Sso.{
  OidcProvider, SsoConfig, SsoSession, SsoError, Store, Text, Signed, azure_ad, okta, google,
  get_provider, add_provider, remove_provider, set_require_sso, set_allowed_domains, clear_session,
}
use secure_desk.Sso.Info.{OidcDiscovery, from_discovery, SsoInfo, from_manager, list_providers}
use secure_desk.Sso.Login.{
  Http, PkceChallenge, authorization_url, wait_for_callback, refresh_session,
}

pub record SsoProviderConfig : Type 0 where
  pub name : List ℕ
  pub provider_type : List ℕ
  pub client_id : List ℕ
  pub client_secret : Option (List ℕ)
  pub tenant_id : Option (List ℕ)
  pub domain : Option (List ℕ)
  pub discovery_url : Option (List ℕ)

pub data LoginError : Type 0 where
  missing_tenant_id missing_domain missing_client_secret missing_discovery_url : LoginError
  unknown_provider_type provider_not_found : List ℕ → LoginError
  discovery_failed : LoginError
  sso_error : SsoError → LoginError

abbrev pub needed :
    {A B : Type 0} → LoginError → Option A → (A → Outcome LoginError B) → Outcome LoginError B
needed e none next = err e
needed e (some a) next = next a

-- `discover` fetches the document at a URL.
unfoldable pub provider_of :
    (List ℕ → Option OidcDiscovery) → SsoProviderConfig → Outcome LoginError OidcProvider
unfolding azure_ad okta google from_discovery
provider_of discover config =
    if text_eq config.provider_type (ascii "azure")
    then needed missing_tenant_id config.tenant_id
        (λ tenant_id. ok (azure_ad tenant_id config.client_id))
    else if text_eq config.provider_type (ascii "okta")
    then needed missing_domain config.domain (λ domain. ok (okta domain config.client_id))
    else if text_eq config.provider_type (ascii "google")
    then needed missing_client_secret config.client_secret
        (λ secret. ok (google config.client_id secret))
    else if text_eq config.provider_type (ascii "custom")
    then needed missing_discovery_url config.discovery_url (λ url.
      needed discovery_failed (discover url)
        (λ discovery. ok (from_discovery discovery config.client_id)))
    else err (unknown_provider_type config.provider_type)

abbrev pub Answered : Type 0 → Type 0
Answered A = Outcome LoginError A × SsoConfig × Store

-- `map_err`, and the value that a command gives of the configuration it leaves
abbrev pub answer : {A B : Type 0} → (SsoConfig → A → B) → Signed A → Answered B
answer f (ok a, c, s) = (ok (f c a), c, s)
answer f (err e, c, s) = (err (sso_error e), c, s)
answer f (panic, c, s) = (panic, c, s)

abbrev pub on_ok :
    {A B : Type 0} → Outcome LoginError A → (A → Answered B) → SsoConfig → Store → Answered B
on_ok (ok a) next c s = next a
on_ok (err e) next c s = (err e, c, s)
on_ok panic next c s = (panic, c, s)

abbrev pub found : List ℕ → SsoConfig → Outcome LoginError OidcProvider
found name c = elim (get_provider name c.providers) [
  | none ↦ err (provider_not_found name)
  | some p ↦ ok p
]

module _ (t : Text) (http : Http) where
  unfoldable pub add_sso_provider :
      (List ℕ → Option OidcDiscovery) → SsoProviderConfig → SsoConfig → Store → Answered (Unit {0})
  unfolding provider_of add_provider
  add_sso_provider discover config c s =
      on_ok (provider_of discover config) (λ p. answer (λ c' u. u) (add_provider t p c s)) c s

  unfoldable pub remove_sso_provider : List ℕ → SsoConfig → Store → Answered (Unit {0})
  unfolding remove_provider
  remove_sso_provider name c s = answer (λ c' u. u) (remove_provider t name c s)

  unfoldable pub set_sso_required : Bool → SsoConfig → Store → Answered (Unit {0})
  unfolding set_require_sso
  set_sso_required required c s = answer (λ c' u. u) (set_require_sso t required c s)

  unfoldable pub set_sso_allowed_domains : List (List ℕ) → SsoConfig → Store → Answered (Unit {0})
  unfolding set_allowed_domains
  set_sso_allowed_domains domains c s = answer (λ c' u. u) (set_allowed_domains t domains c s)

  unfoldable pub sso_logout : SsoConfig → Store → Answered (Unit {0})
  unfolding clear_session
  sso_logout c s = answer (λ c' u. u) (clear_session t c s)

  -- The verifier of the challenge is not passed on: both branches of the code give `None`.
  abbrev pub pkce_of : OidcProvider → Option PkceChallenge
  pkce_of p = if p.use_pkce then none else none

  unfoldable pub complete_sso_login :
      ℕ → List ℕ → List ℕ → List ℕ → Option (List ℕ) → SsoConfig → Store → Answered SsoInfo
  unfolding from_manager
  complete_sso_login now provider_name redirect_uri expected_state line c s =
      on_ok (found provider_name c)
        (λ p.
          answer (λ c' u. from_manager now c')
            (wait_for_callback t http now p redirect_uri expected_state (pkce_of p) line c s))
        c s

  unfoldable pub refresh_sso_session : ℕ → SsoConfig → Store → Answered SsoInfo
  unfolding refresh_session from_manager
  refresh_sso_session now c s =
      answer (λ c' u. from_manager now c') (refresh_session t http now c s)

-- The port of the redirection and the random state and challenge are arguments.
unfoldable pub start_sso_login :
    List ℕ → List ℕ → List ℕ → PkceChallenge → SsoConfig → Outcome LoginError (List ℕ × List ℕ)
start_sso_login provider_name redirect_uri state challenge c = elim (found provider_name c) [
  | err e ↦ err e
  | panic ↦ panic
  | ok p ↦ ok (
    authorization_url p redirect_uri state (if p.use_pkce then some challenge else none),
    redirect_uri,
  )
]

unfoldable pub get_sso_info : ℕ → SsoConfig → SsoInfo
unfolding from_manager
get_sso_info now c = from_manager now c

unfoldable pub list_sso_providers : SsoConfig → List (List ℕ)
unfolding list_providers
list_sso_providers c = list_providers c.providers

unfoldable pub is_sso_required : SsoConfig → Bool
is_sso_required c = c.require_sso

unfoldable pub get_sso_allowed_domains : SsoConfig → List (List ℕ)
get_sso_allowed_domains c = c.allowed_domains
