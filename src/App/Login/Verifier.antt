-- ===== src/App/Login/Verifier.antt =====
-- app/src-tauri/src/main.rs and app/src-tauri/src/sso.rs: a login with PKCE.
use secure_desk.Base.{
  sym, subst, ap, ℕ, ◌≡◌, ◌≢◌, refl, true, Option, none, some, List, [], ◌++◌, arith,
}
use secure_desk.Base.Assoc.{find}
use secure_desk.Base.Outcome.{ok, err, panic}
use secure_desk.Base.Text.{ascii}
use secure_desk.Sso.{OidcProvider, SsoConfig, exchange_failed, Store, Text, Signed, get_provider}
use secure_desk.Sso.Info.{SsoInfo, from_manager}
use secure_desk.Sso.Laws.{AfterOk, AfterOk-chain}
use secure_desk.Sso.Login.{
  Http, unsuccessful, PkceChallenge, authorization_url, exchange_params, exchange_code,
  wait_for_callback, callback_params, authorization_code, request_of, optional_param,
}
use secure_desk.App.Login.{
  provider_not_found, answer, on_ok, pkce_of, complete_sso_login, start_sso_login,
}

-- The endpoint gives no tokens for a form without a verifier, as one does that was given a challenge.
abbrev pub DemandsVerifier : Http → List ℕ → Type 0
DemandsVerifier http endpoint =
    (form : List (List ℕ × List ℕ))
    → find (ascii "code_verifier") form ≡ none
    → http.post endpoint form ≡ unsuccessful

find-exchange_params :
    (p : OidcProvider) (code redirect_uri : List ℕ)
    → find (ascii "code_verifier") (exchange_params p code redirect_uri none) ≡ none
unfolding find exchange_params
find-exchange_params p code redirect_uri = by_secret p.client_secret
  where
    by_secret :
        (secret : Option (List ℕ))
        → find (ascii "code_verifier") (optional_param (ascii "client_secret") secret ++ []) ≡ none
    by_secret none = refl
    by_secret (some s) = refl

abbrev Never : {A : Type 0} → A → SsoConfig → Type 0
Never a c = ⊥

-- What a command gives where the call under it never gives a value
answer-Never :
    {A B : Type 0} (f : SsoConfig → A → B) (r : Signed A) (b : B)
    → AfterOk Never r
    → (answer f r).0 ≢ ok b
answer-Never f (ok a, c, s) b h = absurd h
answer-Never f (err e, c, s) b h = λ q. cc
answer-Never f (panic, c, s) b h = λ q. cc

module _ (t : Text) (http : Http) where
  exchange_code-err :
      (p : OidcProvider) (code redirect_uri : List ℕ)
      → DemandsVerifier http p.token_endpoint
      → exchange_code t http p code redirect_uri none ≡ err exchange_failed
  unfolding exchange_code
  exchange_code-err p code redirect_uri demands =
      rw
        (
          exchange_code,
          demands (exchange_params p code redirect_uri none)
              (find-exchange_params p code redirect_uri),
        )
        refl

  pkce_of-none : (p : OidcProvider) → pkce_of t http p ≡ none
  pkce_of-none p = ground arith

  wait_for_callback-Never :
      (now : ℕ) (p : OidcProvider) (redirect_uri state : List ℕ) (line : Option (List ℕ))
      (c : SsoConfig) (s : Store)
      → DemandsVerifier http p.token_endpoint
      → AfterOk Never (wait_for_callback t http now p redirect_uri state none line c s)
  unfolding wait_for_callback
  wait_for_callback-Never now p redirect_uri state line c s demands =
      AfterOk-chain Never (request_of line) _ c s (λ request _.
        AfterOk-chain Never (callback_params request) _ c s (λ params _.
          AfterOk-chain Never (authorization_code state params) _ c s (λ code _.
            AfterOk-chain Never (exchange_code t http p code redirect_uri none) _ c s
              (λ r e. let refused = exchange_code-err p code redirect_uri demands in cc))))

  -- A provider with PKCE, as every provider is made: the URL of a login is the one with a challenge, and
  -- where the provider then gives no tokens for a form without a verifier, the login is never completed, whatever the
  -- callback brings.
  pub complete_sso_login-start_sso_login :
      (now : ℕ) (name redirect_uri state : List ℕ) (challenge : PkceChallenge)
      (line : Option (List ℕ)) (c : SsoConfig) (s : Store) (p : OidcProvider)
      → get_provider name c.providers ≡ some p
      → p.use_pkce ≡ true
      → DemandsVerifier http p.token_endpoint
      → (start_sso_login name redirect_uri state challenge c
          ≡ ok (authorization_url p redirect_uri state (some challenge), redirect_uri))
        × ((info : SsoInfo)
            → (complete_sso_login t http now name redirect_uri state line c s).0 ≢ ok info)
  unfolding start_sso_login complete_sso_login
  complete_sso_login-start_sso_login now name redirect_uri state challenge line c s p there pkce
        demands =
      (
        rw (start_sso_login, there, pkce) refl,
        λ info.
            subst
              (λ f.
                (on_ok f
                  (λ p'.
                    answer (λ c' u. from_manager now c')
                      (wait_for_callback t http now p' redirect_uri state (pkce_of t http p') line c
                        s))
                  c s).0
                ≢ ok info)
              (sym
                (ap (λ o. elim o [ none ↦ err (provider_not_found name) | some q ↦ ok q ]) there))
              (rw (pkce_of-none p) (
                answer-Never _ (wait_for_callback t http now p redirect_uri state none line c s)
                  info (wait_for_callback-Never now p redirect_uri state line c s demands))),
      )
