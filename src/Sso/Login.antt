-- ===== src/Sso/Login.antt =====
-- app/src-tauri/src/sso.rs: the login, from the URL to the session, and its refresh. reqwest is the parameter
-- `Http`; the request of the callback is the line that is read, if one comes in time.
use secure_desk.Base.{
  ℕ, ◌+◌, ◌%◌, ◌^◌, ◌==◌, ◌||◌, ◌&&◌, Bool, true, not, Option, none, some, List, [], ◌∷◌, ◌++◌, leb,
  if◌then◌else◌, get_elem?, is_empty,
}
use secure_desk.Base.Assoc.{Assoc, find}
use secure_desk.Base.Outcome.{Outcome, ok, err, panic}
use secure_desk.Base.Text.{text_eq, ascii}
use secure_desk.Sso.Url.{encode, query_params}
use secure_desk.Sso.{
  OidcProvider, UserInfo, SsoSession, SsoConfig, SsoError, timeout, invalid_request, missing_state,
  invalid_state, missing_code, no_userinfo_endpoint, oauth_error, exchange_failed, user_info_failed,
  domain_not_allowed, no_active_session, no_refresh_token, provider_not_found, refresh_failed,
  Store, Signed, Text, is_domain_allowed, get_provider, set_session, clear_session,
}

pub record TokenResponse : Type 0 where
  pub access_token : List ℕ
  pub expires_in : Option ℕ
  pub refresh_token : Option (List ℕ)
  pub id_token : Option (List ℕ)

-- What a request for tokens gives: no response that can be read, one that reports a failure, or tokens.
pub data Response : Type 0 where
  unreadable unsuccessful : Response
  tokens : TokenResponse → Response

-- A form that is posted to an endpoint, and the user's data for a token
pub record Http : Type 0 where
  pub post : List ℕ → List (List ℕ × List ℕ) → Response
  pub user_info : List ℕ → List ℕ → Option UserInfo

pub record PkceChallenge : Type 0 where
  pub code_verifier : List ℕ
  pub code_challenge : List ℕ

-- `join(" ")`
abbrev pub join_words : List (List ℕ) → List ℕ
join_words [] = []
join_words (w ∷ []) = w
join_words (w ∷ v ∷ ws) = w ++ (b' ' ∷ join_words (v ∷ ws))

-- `state`, the port's redirection and the challenge are made before it.
unfoldable pub authorization_url : OidcProvider → List ℕ → List ℕ → Option PkceChallenge → List ℕ
unfolding encode
authorization_url p redirect_uri state pkce =
    p.authorization_endpoint
    ++ (ascii "?client_id="
        ++ (encode p.client_id
            ++ (ascii "&redirect_uri="
                ++ (encode redirect_uri
                    ++ (ascii "&response_type=code&state="
                        ++ (encode state
                            ++ (ascii "&scope="
                                ++ (encode (join_words p.scopes) ++ elim pkce [
                                  | none ↦ []
                                  | some challenge ↦
                                      ascii "&code_challenge="
                                      ++ (encode challenge.code_challenge
                                          ++ ascii "&code_challenge_method=S256")
                                ]))))))))

abbrev pub is_space : ℕ → Bool
is_space b = (leb 9 b && leb b 13) || (b == b' ')

-- `split_whitespace`, for ASCII white space
abbrev pub words_from : List ℕ → List ℕ → List (List ℕ)
words_from word [] = if is_empty word then [] else word ∷ []
words_from word (b ∷ bs) =
    let behind = words_from [] bs in
    let longer = words_from (word ++ (b ∷ [])) bs in
    if is_space b then (if is_empty word then behind else word ∷ behind) else longer

-- What stands behind the first `?`, without more of them
abbrev pub trim_marks : List ℕ → List ℕ
trim_marks [] = []
trim_marks (b ∷ bs) = let rest = trim_marks bs in if b == b'?' then rest else b ∷ bs

abbrev pub query_of : List ℕ → List ℕ
query_of [] = []
query_of (b ∷ bs) = let rest = query_of bs in if b == b'?' then trim_marks bs else rest

unfoldable pub callback_params : List ℕ → Outcome SsoError (Assoc (List ℕ))
unfolding query_params
callback_params line = elim (get_elem? (words_from [] line) 1) [
  | none ↦ err invalid_request
  | some path ↦ ok (query_params (query_of path))
]

abbrev pub text_or : Option (List ℕ) → List ℕ → List ℕ
text_or none d = d
text_or (some t) d = t

-- The code of the callback, once its state and the absence of an error are verified.
unfoldable pub authorization_code : List ℕ → Assoc (List ℕ) → Outcome SsoError (List ℕ)
unfolding find
authorization_code expected_state params = elim (find (ascii "state") params) [
  | none ↦ err missing_state
  | some state ↦
      if not (text_eq state expected_state)
      then err invalid_state
      else elim (find (ascii "error") params) [
        | some error ↦
            err (oauth_error error (text_or (find (ascii "error_description") params) []))
        | none ↦ elim (find (ascii "code") params) [ none ↦ err missing_code | some code ↦ ok code ]
      ]
]

abbrev pub optional_param : List ℕ → Option (List ℕ) → List (List ℕ × List ℕ)
optional_param key none = []
optional_param key (some value) = (key, value) ∷ []

abbrev pub verifier_of : Option PkceChallenge → Option (List ℕ)
verifier_of none = none
verifier_of (some challenge) = some challenge.code_verifier

unfoldable pub exchange_params :
    OidcProvider → List ℕ → List ℕ → Option PkceChallenge → List (List ℕ × List ℕ)
exchange_params p code redirect_uri pkce =
    (ascii "grant_type", ascii "authorization_code")
    ∷ (ascii "code", code)
    ∷ (ascii "redirect_uri", redirect_uri)
    ∷ (ascii "client_id", p.client_id)
    ∷ (optional_param (ascii "client_secret") p.client_secret
        ++ optional_param (ascii "code_verifier") (verifier_of pkce))

abbrev pub lifetime : Option ℕ → ℕ
lifetime none = 3600
lifetime (some seconds) = seconds

unfoldable pub session_of : ℕ → OidcProvider → UserInfo → TokenResponse → SsoSession
session_of now p user r = record {
  user = user;
  access_token = r.access_token;
  expires_at = (now + lifetime r.expires_in) % 2 ^ 64;
  refresh_token = r.refresh_token;
  id_token = r.id_token;
  provider = p.name;
}

-- A user without an email address is not restricted.
unfoldable pub is_user_allowed : UserInfo → SsoConfig → Bool
unfolding is_domain_allowed
is_user_allowed user c = elim user.email [ none ↦ true | some email ↦ is_domain_allowed email c ]

abbrev pub with_session : SsoSession → Signed (Unit {0}) → Signed SsoSession
with_session session (ok u, c, s) = (ok session, c, s)
with_session session (err e, c, s) = (err e, c, s)
with_session session (panic, c, s) = (panic, c, s)

-- `?` on a value: what follows sees the configuration as it was.
abbrev pub chain :
    {A B : Type 0}
    → Outcome SsoError A
    → (A → SsoConfig → Store → Signed B)
    → SsoConfig
    → Store
    → Signed B
chain (ok a) next c s = next a c s
chain (err e) next c s = (err e, c, s)
chain panic next c s = (panic, c, s)

-- `context`: an error where there is nothing
abbrev pub expect : {A : Type 0} → SsoError → Option A → Outcome SsoError A
expect e none = err e
expect e (some a) = ok a

abbrev pub request_of : Option (List ℕ) → Outcome SsoError (List ℕ)
request_of line = expect timeout line

abbrev pub or_old : Option (List ℕ) → Option (List ℕ) → Option (List ℕ)
or_old none old = old
or_old (some new) old = some new

abbrev pub after_clear : Signed (Unit {0}) → Signed SsoSession
after_clear (ok u, c, s) = (err refresh_failed, c, s)
after_clear (err e, c, s) = (err e, c, s)
after_clear (panic, c, s) = (panic, c, s)

module _ (t : Text) (http : Http) where
  unfoldable pub get_user_info : OidcProvider → List ℕ → Outcome SsoError UserInfo
  get_user_info p access_token = elim p.userinfo_endpoint [
    | none ↦ err no_userinfo_endpoint
    | some url ↦ elim (http.user_info url access_token) [
      | none ↦ err user_info_failed
      | some user ↦ ok user
    ]
  ]

  -- The session of a user, where the restriction of domains lets the user in.
  unfoldable pub finish_login :
      ℕ → OidcProvider → UserInfo → TokenResponse → SsoConfig → Store → Signed SsoSession
  unfolding set_session session_of is_user_allowed
  finish_login now p user r c s =
      if is_user_allowed user c
      then with_session (session_of now p user r) (set_session t (session_of now p user r) c s)
      else (err (domain_not_allowed (text_or user.email [])), c, s)

  unfoldable pub exchange_code :
      OidcProvider → List ℕ → List ℕ → Option PkceChallenge → Outcome SsoError TokenResponse
  unfolding exchange_params
  exchange_code p code redirect_uri pkce =
      elim (http.post p.token_endpoint (exchange_params p code redirect_uri pkce)) [
        | unreadable ↦ err exchange_failed
        | unsuccessful ↦ err exchange_failed
        | tokens r ↦ ok r
      ]

  -- `line` is the first line of the callback's request, if one comes in 120 seconds.
  unfoldable pub wait_for_callback :
      ℕ
      → OidcProvider
      → List ℕ
      → List ℕ
      → Option PkceChallenge
      → Option (List ℕ)
      → SsoConfig
      → Store
      → Signed SsoSession
  unfolding callback_params authorization_code exchange_code get_user_info finish_login
  wait_for_callback now p redirect_uri expected_state pkce line =
      chain (request_of line) (λ request. chain (callback_params request) (λ params.
        chain (authorization_code expected_state params) (λ code.
          chain (exchange_code p code redirect_uri pkce)
            (λ r. chain (get_user_info p r.access_token) (λ user. finish_login now p user r)))))

  abbrev pub refresh_params : OidcProvider → List ℕ → List (List ℕ × List ℕ)
  refresh_params p refresh_token =
      (ascii "grant_type", ascii "refresh_token")
      ∷ (ascii "refresh_token", refresh_token)
      ∷ (ascii "client_id", p.client_id)
      ∷ optional_param (ascii "client_secret") p.client_secret

  abbrev pub refreshed : ℕ → TokenResponse → SsoSession → SsoSession
  refreshed now r session = record session {
    access_token = r.access_token;
    expires_at = (now + lifetime r.expires_in) % 2 ^ 64;
    refresh_token = or_old r.refresh_token session.refresh_token;
    id_token = or_old r.id_token session.id_token;
  }

  -- A refresh that the provider refuses ends the session.
  unfoldable pub answer_refresh : ℕ → SsoSession → Response → SsoConfig → Store → Signed SsoSession
  unfolding clear_session set_session
  answer_refresh now session unreadable c s = (err exchange_failed, c, s)
  answer_refresh now session unsuccessful c s = after_clear (clear_session t c s)
  answer_refresh now session (tokens r) c s =
      with_session (refreshed now r session) (set_session t (refreshed now r session) c s)

  unfoldable pub refresh_session : ℕ → SsoConfig → Store → Signed SsoSession
  unfolding get_provider answer_refresh
  refresh_session now c =
      chain (expect no_active_session c.active_session)
        (λ session. chain (expect no_refresh_token session.refresh_token) (λ token.
          chain (expect provider_not_found (get_provider session.provider c.providers)) (λ p.
            answer_refresh now session (http.post p.token_endpoint (refresh_params p token)))))
        c
