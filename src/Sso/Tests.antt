-- ===== src/Sso/Tests.antt =====
-- Runs of app/src-tauri/src/sso.rs, and its theorems, with toys in place of the libraries: every request for tokens
-- and users is answered with the same.
use secure_desk.Base.{ℕ, ◌≡◌, refl, true, none, some, List, [], ◌∷◌}
use secure_desk.Base.Assoc.{Assoc, find}
use secure_desk.Base.Outcome.{ok}
use secure_desk.Base.Text.{ascii}
use secure_desk.Base.Utf8.{from_utf8_lossy}
use secure_desk.Sso.{
  OidcProvider, UserInfo, SsoSession, SsoConfig, Store, Text, okta, default_config,
}
use secure_desk.Sso.Login.{
  Http, TokenResponse, tokens, callback_params, session_of, wait_for_callback,
}
use secure_desk.Sso.Laws.{IsVerified, wait_for_callback_sound, wait_for_callback_without_email}

abbrev user : UserInfo
user = record {
  sub = ascii "7";
  name = none;
  email = none;
  email_verified = none;
  preferred_username = none;
  picture = none;
  extra = [];
}

abbrev answer : TokenResponse
answer = record {
  access_token = ascii "t";
  expires_in = none;
  refresh_token = none;
  id_token = none;
}

abbrev toy_text : Text
toy_text = record { to_string_pretty = λ c. []; from_str = λ bytes. none }

abbrev toy : Http
toy = record { post = λ url form. tokens answer; user_info = λ url token. some user }

-- Only one domain is allowed.
abbrev config : SsoConfig
config = record default_config { allowed_domains = ascii "example.com" ∷ [] }

abbrev store : Store
store = record { file = none; writable = true; left = none }

abbrev provider : OidcProvider
provider = okta (ascii "d") (ascii "c")

abbrev line : List ℕ
line = ascii "GET /callback?code=x&state=s HTTP/1.1"

abbrev params : Assoc (List ℕ)
params = (ascii "state", ascii "s") ∷ (ascii "code", ascii "x") ∷ []

line-params : callback_params line ≡ ok params
unfolding callback_params from_utf8_lossy
line-params = refl

abbrev uri : List ℕ
uri = ascii "http://127.0.0.1:9/callback"

abbrev signed : SsoSession
signed = session_of 5 provider user answer

wait_for_callback_without_email_example :
    (session : SsoSession) × (after : SsoConfig) × (s' : Store) × (wait_for_callback toy_text toy 5
        provider uri
        (ascii "s")
        none
        (some line)
        config
        store
      ≡ (ok session, after, s'))
    × (session.user ≡ user)
    × (after.active_session ≡ some session)
unfolding okta find
wait_for_callback_without_email_example =
    wait_for_callback_without_email toy_text toy 5 provider uri (ascii "s") line (ascii "x")
      (ascii "https://d/oauth2/v1/userinfo") none params answer user config store line-params refl
      refl refl refl refl refl refl refl

wait_for_callback_sound_example :
    IsVerified (ascii "s") line config signed (record config { active_session = some signed })
unfolding wait_for_callback okta from_utf8_lossy
wait_for_callback_sound_example =
    wait_for_callback_sound toy_text toy 5 provider uri (ascii "s") line none config
      (record config { active_session = some signed }) store (record store { file = some [] })
      signed refl
