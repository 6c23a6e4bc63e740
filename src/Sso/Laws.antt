-- ===== src/Sso/Laws.antt =====
-- app/src-tauri/src/sso.rs: what holds of a session that a login makes.
use secure_desk.Base.{
  ℕ, ◌≡◌, refl, ap, sym, subst, ◌∙◌, Bool, true, false, not, Option, none, some, List, [],
  if◌then◌else◌, Bool-cases, inl, inr, if-true, if-false,
}
use secure_desk.Base.Assoc.{Assoc, find}
use secure_desk.Base.Outcome.{Outcome, ok, err, panic}
use secure_desk.Base.Text.{text_eq, text_eq_refl, text_eq_sound, ascii}
use secure_desk.Sso.{
  OidcProvider, UserInfo, SsoSession, SsoConfig, SsoError, Store, Signed, Text, save, set_session,
  oauth_error, missing_code, missing_state, invalid_state, domain_not_allowed,
}
use secure_desk.Sso.Login.{
  Http, PkceChallenge, TokenResponse, callback_params, authorization_code, session_of,
  is_user_allowed, with_session, chain, get_user_info, exchange_code, finish_login,
  wait_for_callback, text_or, exchange_params, tokens,
}

-- What holds where a call gives a value.
abbrev pub AfterOk : {A : Type 0} → (A → SsoConfig → Type 0) → Signed A → Type 0
AfterOk P (ok a, c, s) = P a c
AfterOk P (err e, c, s) = Unit
AfterOk P (panic, c, s) = Unit

pub AfterOk-chain :
    {A B : Type 0} (P : B → SsoConfig → Type 0) (m : Outcome SsoError A)
    (next : A → SsoConfig → Store → Signed B) (c : SsoConfig) (s : Store)
    → ((a : A) → m ≡ ok a → AfterOk P (next a c s))
    → AfterOk P (chain m next c s)
AfterOk-chain P (ok a) next c s h = h a refl
AfterOk-chain P (err e) next c s h = tt
AfterOk-chain P panic next c s h = tt

-- A code is given only for the expected state and without an error.
authorization_code_sound :
    (expected code : List ℕ) (params : Assoc (List ℕ))
    → authorization_code expected params ≡ ok code
    → (find (ascii "state") params ≡ some expected) × (find (ascii "error") params ≡ none)
unfolding authorization_code
authorization_code_sound expected code params e = by_state (find (ascii "state") params) refl e
  where
    by_error :
        (error : Option (List ℕ))
        → find (ascii "error") params ≡ error
        → ◌≡◌ {A = Outcome SsoError (List ℕ)}
            (elim error [
              | some text ↦
                  err (oauth_error text (text_or (find (ascii "error_description") params) []))
              | none ↦ elim (find (ascii "code") params) [
                | none ↦ err missing_code
                | some code ↦ ok code
              ]
            ])
            (ok code)
        → find (ascii "error") params ≡ none
    by_error none h k = h
    by_error (some text) h k = cc

    by_state :
        (state : Option (List ℕ))
        → find (ascii "state") params ≡ state
        → ◌≡◌ {A = Outcome SsoError (List ℕ)}
            (elim state [
              | none ↦ err missing_state
              | some state ↦
                  if not (text_eq state expected)
                  then err invalid_state
                  else elim (find (ascii "error") params) [
                    | some error ↦
                        err
                          (oauth_error error (text_or (find (ascii "error_description") params) []))
                    | none ↦ elim (find (ascii "code") params) [
                      | none ↦ err missing_code
                      | some code ↦ ok code
                    ]
                  ]
            ])
            (ok code)
        → (find (ascii "state") params ≡ some expected) × (find (ascii "error") params ≡ none)
    by_state none h k = cc
    by_state (some state) h k = elim (Bool-cases (text_eq state expected)) [
      | inl same ↦ (
        h ∙ ap some (text_eq_sound state expected same),
        by_error (find (ascii "error") params) refl
            (sym (if-false (not (text_eq state expected)) _ _ (ap not same)) ∙ k),
      )
      | inr other ↦
          let refused = sym (if-true (not (text_eq state expected)) _ _ (ap not other)) ∙ k in cc
    ]

-- The state of the callback, its lack of an error, and the domain of the user, if the user has an address.
abbrev pub IsVerified : List ℕ → List ℕ → SsoConfig → SsoSession → SsoConfig → Type 0
IsVerified expected line before session after =
    (params : Assoc (List ℕ)) × (callback_params line ≡ ok params)
    × (find (ascii "state") params ≡ some expected)
    × (find (ascii "error") params ≡ none)
    × (is_user_allowed session.user before ≡ true)
    × (after.active_session ≡ some session)

AfterOk-with_session :
    (P : SsoSession → SsoConfig → Type 0) (session : SsoSession) (m : Outcome SsoError (Unit {0}))
    (c : SsoConfig) (s : Store)
    → P session c
    → AfterOk P (with_session session (m, c, s))
AfterOk-with_session P session (ok u) c s h = h
AfterOk-with_session P session (err e) c s h = tt
AfterOk-with_session P session panic c s h = tt

module _ (t : Text) (http : Http) where
  finish_login-AfterOk :
      (P : SsoSession → SsoConfig → Type 0) (now : ℕ) (p : OidcProvider) (user : UserInfo)
      (r : TokenResponse) (c : SsoConfig) (s : Store)
      → (is_user_allowed user c ≡ true
          → P
              (session_of now p user r)
              (record c { active_session = some (session_of now p user r) }))
      → AfterOk P (finish_login t http now p user r c s)
  unfolding finish_login set_session
  finish_login-AfterOk P now p user r c s h = by_domain (is_user_allowed user c) h
    where
      by_domain :
          (allowed : Bool)
          → (allowed ≡ true
              → P
                  (session_of now p user r)
                  (record c { active_session = some (session_of now p user r) }))
          → AfterOk P (
              if allowed
              then with_session
                  (session_of now p user r)
                  (set_session t (session_of now p user r) c s)
              else (err (domain_not_allowed (text_or user.email [])), c, s))
      by_domain true k = AfterOk-with_session P (session_of now p user r) _ _ _ (k refl)
      by_domain false k = tt

  -- A login that gives a session had a callback with the expected state and without an error, its user
  -- has no email address or one of an allowed domain, and the session is the active one.
  pub wait_for_callback_sound :
      (now : ℕ) (p : OidcProvider) (redirect_uri expected line : List ℕ)
      (pkce : Option PkceChallenge) (c after : SsoConfig) (s s' : Store) (session : SsoSession)
      → wait_for_callback t http now p redirect_uri expected pkce (some line) c s
        ≡ (ok session, after, s')
      → IsVerified expected line c session after
  unfolding wait_for_callback session_of
  wait_for_callback_sound now p redirect_uri expected line pkce c after s s' session e =
      subst (AfterOk (IsVerified expected line c)) e (
        AfterOk-chain _ (callback_params line) _ c s (λ params read.
          AfterOk-chain _ (authorization_code expected params) _ c s (λ code given.
            AfterOk-chain _ (exchange_code t http p code redirect_uri pkce) _ c s (λ r _.
              AfterOk-chain _ (get_user_info t http p r.access_token) _ c s (λ user _.
                finish_login-AfterOk _ now p user r c s (λ allowed.
                  let verified = authorization_code_sound expected code params given in
                  (params, read, verified.0, verified.1, allowed, refl)))))))

  chain-ok :
      {A B : Type 0} {m : Outcome SsoError A} {a : A}
      → m ≡ ok a
      → (next : A → SsoConfig → Store → Signed B) (c : SsoConfig) (s : Store)
      → chain m next c s ≡ next a c s
  chain-ok e next c s = ap (λ x. chain x next c s) e

  authorization_code-ok :
      (expected code : List ℕ) (params : Assoc (List ℕ))
      → find (ascii "state") params ≡ some expected
      → find (ascii "error") params ≡ none
      → find (ascii "code") params ≡ some code
      → authorization_code expected params ≡ ok code
  unfolding authorization_code
  authorization_code-ok expected code params e e' e'' =
      rw (authorization_code, e, text_eq_refl expected, e', e'') refl

  exchange_code-ok :
      (p : OidcProvider) (code redirect_uri : List ℕ) (pkce : Option PkceChallenge)
      (r : TokenResponse)
      → http.post p.token_endpoint (exchange_params p code redirect_uri pkce) ≡ tokens r
      → exchange_code t http p code redirect_uri pkce ≡ ok r
  unfolding exchange_code
  exchange_code-ok p code redirect_uri pkce r e = rw (exchange_code, e) refl

  get_user_info-ok :
      (p : OidcProvider) (url token : List ℕ) (user : UserInfo)
      → p.userinfo_endpoint ≡ some url
      → http.user_info url token ≡ some user
      → get_user_info t http p token ≡ ok user
  unfolding get_user_info
  get_user_info-ok p url token user e e' = rw (get_user_info, e, e') refl

  finish_login-ok :
      (now : ℕ) (p : OidcProvider) (user : UserInfo) (r : TokenResponse) (c : SsoConfig) (s : Store)
      → user.email ≡ none
      → s.writable ≡ true
      → finish_login t http now p user r c s ≡ (
        ok (session_of now p user r),
        record c { active_session = some (session_of now p user r) },
        record s {
          file =
              some
                (t.to_string_pretty (record c { active_session = some (session_of now p user r) }));
        },
      )
  unfolding finish_login set_session save is_user_allowed
  finish_login-ok now p user r c s e w =
      let allowed : is_user_allowed user c ≡ true = rw (is_user_allowed, e) refl in
      if-true (is_user_allowed user c) _ _ allowed ∙ rw w refl

  -- A user without an email address is logged in whatever domains are allowed, where the callback has the
  -- expected state, a code and no error, the provider answers with tokens and with the user, and the file
  -- can be written.
  pub wait_for_callback_without_email :
      (now : ℕ) (p : OidcProvider) (redirect_uri expected line code url : List ℕ)
      (pkce : Option PkceChallenge) (params : Assoc (List ℕ)) (r : TokenResponse) (user : UserInfo)
      (c : SsoConfig) (s : Store)
      → callback_params line ≡ ok params
      → find (ascii "state") params ≡ some expected
      → find (ascii "error") params ≡ none
      → find (ascii "code") params ≡ some code
      → http.post p.token_endpoint (exchange_params p code redirect_uri pkce) ≡ tokens r
      → p.userinfo_endpoint ≡ some url
      → http.user_info url r.access_token ≡ some user
      → user.email ≡ none
      → s.writable ≡ true
      → (session : SsoSession) × (after : SsoConfig) × (s' : Store) × (wait_for_callback t http now
            p redirect_uri expected pkce
            (some line)
            c
            s
          ≡ (ok session, after, s'))
        × (session.user ≡ user)
        × (after.active_session ≡ some session)
  unfolding wait_for_callback get_user_info finish_login set_session save session_of
  wait_for_callback_without_email now p redirect_uri expected line code url pkce params r user c s
        read state error given exchanged endpoint answered no_email w =
      (
        session_of now p user r,
        record c { active_session = some (session_of now p user r) },
        record s {
          file =
              some
                (t.to_string_pretty (record c { active_session = some (session_of now p user r) }));
        },
        chain-ok read _ c s
            ∙ chain-ok (authorization_code-ok expected code params state error given) _ c s
            ∙ chain-ok (exchange_code-ok p code redirect_uri pkce r exchanged) _ c s
            ∙ chain-ok (get_user_info-ok p url r.access_token user endpoint answered) _ c s
            ∙ finish_login-ok now p user r c s no_email w,
        refl,
        refl,
      )
