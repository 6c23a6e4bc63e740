-- ===== src/App/Sessions/Closed.antt =====
-- app/src-tauri/src/main.rs: what closing a session, and closing all of them, leaves behind.
use secure_desk.Base.{
  ℕ, ◌≡◌, refl, ap, subst, ◌∙◌, Bool, true, false, Option, none, some, List, [], ◌∷◌, map,
  if◌then◌else◌, arith,
}
use secure_desk.Base.Text.{text_eq, text_eq_sound, text_eq_refl}
use secure_desk.Session.{Error, done, failed, panicked, Noise}
use secure_desk.Client.{Client, disconnect}
use secure_desk.Base.Assoc.{find, remove, find-remove}
use secure_desk.App.Sessions.{
  SessionMap, ClientSessionEntry, Sessions, session_error, replied, refused, crashed,
  disconnect_session, disconnect_each, disconnect_all_sessions, with_session, close,
}
use secure_desk.App.Commands.{send_key}
use secure_desk.App.Sessions.Invariant.{AfterReply}

abbrev any_eq : List ℕ → List (List ℕ) → Bool
any_eq k [] = false
any_eq k (id ∷ ids) = let rest = any_eq k ids in if text_eq k id then true else rest

module _ {N S : Type 0} (n : Noise N S) where
  -- What a map holds, if it is there.
  abbrev Holds : (SessionMap S → Type 0) → Option (SessionMap S) → Type 0
  Holds P none = Unit
  Holds P (some m) = P m

  Holds-map :
      (P Q : SessionMap S → Type 0)
      → ((m : SessionMap S) → P m → Q m)
      → (o : Option (SessionMap S)) → Holds P o
      → Holds Q o
  Holds-map P Q f none h = tt
  Holds-map P Q f (some m) h = f m h

  find-disconnect_each :
      (k : List ℕ) (ids : List (List ℕ)) (m : SessionMap S)
      → Holds
          (λ rest. find k rest ≡ (if any_eq k ids then none else find k m))
          (disconnect_each n ids m)
  unfolding disconnect_each
  find-disconnect_each k [] m = refl
  find-disconnect_each k (id ∷ ids) m =
      by_entry (find-disconnect_each k ids m) (find-disconnect_each k ids (remove id m)) (find id m)
        refl
    where
      missing :
          find id m ≡ none
          → (rest : SessionMap S) → find k rest ≡ (if any_eq k ids then none else find k m)
          → find k rest ≡ (if any_eq k (id ∷ ids) then none else find k m)
      missing e rest h = ground (arith, h, e, text_eq_sound k id)

      closed :
          (rest : SessionMap S)
          → find k rest ≡ (if any_eq k ids then none else find k (remove id m))
          → find k rest ≡ (if any_eq k (id ∷ ids) then none else find k m)
      closed rest h = ground (arith, h, find-remove id k m)

      by_entry :
          Holds
            (λ rest. find k rest ≡ (if any_eq k ids then none else find k m))
            (disconnect_each n ids m)
          → Holds
              (λ rest. find k rest ≡ (if any_eq k ids then none else find k (remove id m)))
              (disconnect_each n ids (remove id m))
          → (found : Option (ClientSessionEntry S)) → find id m ≡ found
          → Holds
              (λ rest. find k rest ≡ (if any_eq k (id ∷ ids) then none else find k m))
              (elim found [
                | none ↦ disconnect_each n ids m
                | some entry ↦ elim (disconnect n entry.session) [
                  | done u c ↦ disconnect_each n ids (remove id m)
                  | failed e c ↦ disconnect_each n ids (remove id m)
                  | panicked ↦ none
                ]
              ])
      by_entry h h' none e = Holds-map _ _ (missing e) (disconnect_each n ids m) h
      by_entry h h' (some entry) e =
          let others = Holds-map _ _ closed (disconnect_each n ids (remove id m)) h' in
          elim (disconnect n entry.session)
            as (λ r.
              Holds (λ rest. find k rest ≡ (if any_eq k (id ∷ ids) then none else find k m))
                (elim r [
                  | done u c ↦ disconnect_each n ids (remove id m)
                  | failed e c ↦ disconnect_each n ids (remove id m)
                  | panicked ↦ none
                ])) [ done u c ↦ others | failed e c ↦ others | panicked ↦ tt ]

  find-keys :
      (k : List ℕ) (m : SessionMap S)
      → (if any_eq k (map (λ p. p.0) m) then none else find k m) ≡ none
  unfolding find
  find-keys k [] = refl
  find-keys k (p ∷ ps) = ground (arith, find-keys k ps)

  abbrev IsEmpty : Sessions S → Type 0
  IsEmpty t = ((id : List ℕ) → find id t.client_sessions ≡ none) × (t.active_session_id ≡ none)

  all_closed : (s : Sessions S) → AfterReply IsEmpty (disconnect_all_sessions n s)
  unfolding disconnect_all_sessions
  all_closed s =
      by_rest (disconnect_each n (map (λ p. p.0) s.client_sessions) s.client_sessions) (λ k.
        Holds-map _ _ (λ m h. h ∙ find-keys k s.client_sessions)
          (disconnect_each n (map (λ p. p.0) s.client_sessions) s.client_sessions)
          (find-disconnect_each k (map (λ p. p.0) s.client_sessions) s.client_sessions))
    where
      by_rest :
          (o : Option (SessionMap S))
          → ((k : List ℕ) → Holds (λ m. find k m ≡ none) o)
          → AfterReply IsEmpty (elim o [
            | none ↦ crashed
            | some rest ↦ replied tt (record s { client_sessions = rest; active_session_id = none })
          ])
      by_rest none h = tt
      by_rest (some rest) h = (h, refl)

  -- Where the command replies it leaves no session and none that is active, also where the last message of
  -- a session could not be sent.
  pub disconnect_all_sessions-none :
      (s t : Sessions S)
      → disconnect_all_sessions n s ≡ replied tt t
      → ((id : List ℕ) → find id t.client_sessions ≡ none) × (t.active_session_id ≡ none)
  disconnect_all_sessions-none s t e = subst (AfterReply IsEmpty) e (all_closed s)

  -- A session whose last message cannot be sent is closed and its command reports an error; where it was
  -- the active one its id stays active, and keys that are sent afterwards are dropped without an error.
  pub send_key-disconnect_session :
      (first_key : SessionMap S → Option (List ℕ)) (id : List ℕ) (entry : ClientSessionEntry S)
      (error : Error) (c : Client S) (key_code : ℕ) (pressed : Bool) (s : Sessions S)
      → s.active_session_id ≡ some id
      → find id s.client_sessions ≡ some entry
      → disconnect n entry.session ≡ failed error c
      → (t : Sessions S) × (disconnect_session n first_key none s ≡ refused (session_error error) t)
        × (t.active_session_id ≡ some id)
        × (send_key n key_code pressed none t ≡ replied tt t)
  unfolding disconnect_session with_session close send_key
  send_key-disconnect_session first_key id entry error c key_code pressed s e e' e'' =
      let closed = λ (active : Option (List ℕ)). record s {
        client_sessions = remove id s.client_sessions;
        active_session_id = active;
      } in
      let gone : find id (remove id s.client_sessions) ≡ none =
        ground (arith, find-remove id id s.client_sessions, text_eq_refl id) in
      (
        record s { client_sessions = remove id s.client_sessions },
        rw (e, with_session, e', close, e'')
            (ap (λ active. refused (session_error error) (closed active)) e),
        e,
        rw (e, with_session, gone) (ap (λ active. replied tt (closed active)) e),
      )
