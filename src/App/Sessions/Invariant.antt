-- ===== src/App/Sessions/Invariant.antt =====
-- app/src-tauri/src/main.rs: the keys of the sessions are numbers that the counter has given, and the active
-- session is one of them; which commands keep this.
use secure_desk.Base.{
  ℕ, ◌<◌, ◌+◌, ◌^◌, ◌≡◌, refl, subst, ap, ◌∙◌, false, Option, none, some, List, [], if◌then◌else◌,
  Bool-cases, Option-cases, inl, inr, arith,
}
use secure_desk.Base.Text.{text_eq, text_eq_sound, text_eq_refl}
use secure_desk.Session.{done, failed, panicked, Noise}
use secure_desk.Client.{Client, disconnect}
use secure_desk.Base.Assoc.{find, remove, insert, find-remove, find-insert}
use secure_desk.App.Sessions.{
  SessionMap, ClientSessionEntry, Sessions, Command, CommandError, Reply, replied, refused, crashed,
  session_id_of, add_session, set_active_session, disconnect_session, or_else, with_session, close,
  is_id,
}
use mathlib.Core.Option as Option
use secure_desk.App.Commands.{set_session}
use secure_desk.App.Sessions.Lookup.{find-set_session, session_id_of_injective}

-- The key has the number of a session that was counted.
abbrev pub IsIssued : ℕ → List ℕ → Type 0
IsIssued counter id = (c : ℕ) × (c < counter) × (id ≡ session_id_of c)

module _ {S : Type 0} where
  abbrev pub IsIn : SessionMap S → List ℕ → Type 0
  IsIn m id = (entry : ClientSessionEntry S) × (find id m ≡ some entry)

  pub record Consistent (s : Sessions S) : Type 0 where
    pub issued : (id : List ℕ) → IsIn s.client_sessions id → IsIssued s.session_counter id
    pub active : (id : List ℕ) → s.active_session_id ≡ some id → IsIn s.client_sessions id

  -- What `sessions.keys().next()` gives: a key of the map, and one unless the map is empty.
  abbrev pub IsFirstKey : (SessionMap S → Option (List ℕ)) → Type 0
  IsFirstKey first_key =
      (m : SessionMap S)
      → ((id : List ℕ) → first_key m ≡ some id → IsIn m id) × (first_key m ≡ none → m ≡ [])

  -- The next key is not in use.
  pub fresh :
      (s : Sessions S)
      → Consistent s
      → find (session_id_of s.session_counter) s.client_sessions ≡ none
  fresh s h = elim (Option-cases (find (session_id_of s.session_counter) s.client_sessions)) [
    | inl e ↦ e
    | inr found ↦
        let k = h.issued (session_id_of s.session_counter) found in
        let same : s.session_counter ≡ k.0 = session_id_of_injective s.session_counter k.0 k.2 in
        absurd (omega (arith, k.1))
  ]

  IsIn-remove : (id k : List ℕ) (m : SessionMap S) → IsIn (remove id m) k → IsIn m k
  IsIn-remove id k m (entry, e) = (entry, ground (arith, find-remove id k m))

  still-IsIn :
      (id k : List ℕ) (m : SessionMap S) → text_eq k id ≡ false → IsIn m k → IsIn (remove id m) k
  still-IsIn id k m h (entry, e) = (entry, ground (arith, find-remove id k m))

  -- What holds of the state after a command that did not report an error.
  abbrev pub AfterReply : {A : Type 0} → (Sessions S → Type 0) → Reply A S → Type 0
  AfterReply P (replied a t) = P t
  AfterReply P (refused e t) = Unit
  AfterReply P crashed = Unit

  chosen-IsIn : (m : SessionMap S) (id k : List ℕ) → some id ≡ some k → IsIn m id → IsIn m k
  chosen-IsIn m id k e h = let same : id ≡ k = cc in subst (IsIn m) same h

  find-insert_same :
      (id : List ℕ) (entry : ClientSessionEntry S) (m : SessionMap S)
      → find id (insert id entry m) ≡ some entry
  find-insert_same id entry m = ground (arith, find-insert id id entry m, text_eq_refl id)

  IsIssued-insert :
      (counter : ℕ) (m : SessionMap S) (entry : ClientSessionEntry S) (id : List ℕ)
      → ((k : List ℕ) → IsIn m k → IsIssued counter k)
      → IsIn (insert (session_id_of counter) entry m) id
      → IsIssued (counter + 1) id
  IsIssued-insert counter m entry id h (e, found) =
      elim (Bool-cases (text_eq id (session_id_of counter))) [
        | inl same ↦ (counter, omega arith, text_eq_sound id (session_id_of counter) same)
        | inr other ↦
            let old : find id m ≡ some e =
              ground (arith, find-insert (session_id_of counter) id entry m) in
            let k = h id (e, old) in (k.0, omega (arith, k.1), k.2)
      ]

  pub add_session-Consistent :
      (client : Client S) (remote_id : List ℕ) (remote_name : Option (List ℕ)) (now : ℕ)
      (s : Sessions S)
      → s.session_counter + 1 < 2 ^ 64
      → Consistent s
      → AfterReply Consistent (add_session client remote_id remote_name now s)
  unfolding add_session
  add_session-Consistent client remote_id remote_name now s bound h = record {
    issued = λ id k.
        subst (λ c. IsIssued c id) (omega arith)
          (IsIssued-insert s.session_counter s.client_sessions _ id h.issued k);
    active = λ id e.
        chosen-IsIn _ _ id e
          (_, find-insert_same (session_id_of s.session_counter) _ s.client_sessions);
  }

  pub set_active_session-Consistent :
      (id : List ℕ) (s : Sessions S)
      → Consistent s
      → AfterReply Consistent (set_active_session id s)
  unfolding set_active_session
  set_active_session-Consistent id s h = by_cases (find id s.client_sessions) refl
    where
      by_cases :
          (found : Option (ClientSessionEntry S))
          → find id s.client_sessions ≡ found
          → AfterReply Consistent (elim found [
            | none ↦ refused (CommandError.session_not_found id) s
            | some entry ↦ replied tt (record s { active_session_id = some id })
          ])
      by_cases none e = tt
      by_cases (some entry) e = record {
        issued = h.issued;
        active = λ k e'. chosen-IsIn s.client_sessions id k e' (entry, e);
      }

  -- A command on a session, by its three cases.
  pub AfterReply-with_session :
      {A : Type 0} (P : Sessions S → Type 0) (id : Option (List ℕ)) (missing : List ℕ → Command A S)
      (run : List ℕ → ClientSessionEntry S → Command A S) (s : Sessions S)
      → ((target : List ℕ) → AfterReply P (missing target s))
      → ((target : List ℕ) (entry : ClientSessionEntry S)
          → find target s.client_sessions ≡ some entry
          → AfterReply P (run target entry s))
      → AfterReply P (with_session id missing run s)
  unfolding with_session
  AfterReply-with_session P id missing run s h k = by_target (or_else id s.active_session_id)
    where
      by_entry :
          (target : List ℕ) (found : Option (ClientSessionEntry S))
          → find target s.client_sessions ≡ found
          → AfterReply P (elim found [ none ↦ missing target s | some entry ↦ run target entry s ])
      by_entry target none e = h target
      by_entry target (some entry) e = k target entry e

      by_target :
          (target : Option (List ℕ))
          → AfterReply P (elim target [
            | none ↦ refused CommandError.no_active_session s
            | some target ↦ elim (find target s.client_sessions) [
              | none ↦ missing target s
              | some entry ↦ run target entry s
            ]
          ])
      by_target none = tt
      by_target (some target) = by_entry target (find target s.client_sessions) refl

  -- A command on a session changes what the map holds, not its keys.
  pub changed-Consistent :
      (target : List ℕ) (client : Client S) (s : Sessions S)
      → Consistent s
      → Consistent (record s { client_sessions = set_session target client s.client_sessions })
  changed-Consistent target client s h = record {
    issued = λ id k. h.issued id (was_in id k);
    active = λ id e. stays_in id (h.active id e);
  }
    where
      stays_in :
          (id : List ℕ)
          → IsIn s.client_sessions id
          → IsIn (set_session target client s.client_sessions) id
      stays_in id (entry, e) =
          (_, find-set_session target id client s.client_sessions ∙ ap (Option.map _) e)

      was_in :
          (id : List ℕ)
          → IsIn (set_session target client s.client_sessions) id
          → IsIn s.client_sessions id
      was_in id (entry, e) = elim (Option-cases (find id s.client_sessions)) [
        | inl missing ↦
            absurd (ground (arith, e, missing, find-set_session target id client s.client_sessions))
        | inr found ↦ found
      ]

  module _ (first_key : SessionMap S → Option (List ℕ)) (first : IsFirstKey first_key) where
    next_active : List ℕ → Sessions S → Option (List ℕ)
    next_active target s =
        if is_id s.active_session_id target
        then first_key (remove target s.client_sessions)
        else s.active_session_id

    closed-Consistent :
        (target : List ℕ) (s : Sessions S)
        → Consistent s
        → Consistent (record s {
          client_sessions = remove target s.client_sessions;
          active_session_id = next_active target s;
        })
    unfolding next_active
    closed-Consistent target s h = record {
      issued = λ id k. h.issued id (IsIn-remove target id s.client_sessions k);
      active = λ id. elim (Bool-cases (is_id s.active_session_id target)) [
        | inl was_active ↦ rw was_active (λ e. (first (remove target s.client_sessions)).0 id e)
        | inr other ↦
            rw other (λ e.
              still-IsIn target id s.client_sessions (ground (arith, e, other)) (h.active id e))
      ];
    }

    pub disconnect_session-Consistent :
        {N : Type 0} (n : Noise N S) (id : Option (List ℕ)) (s : Sessions S)
        → Consistent s
        → AfterReply Consistent (disconnect_session n first_key id s)
    unfolding disconnect_session close next_active
    disconnect_session-Consistent n id s h =
        AfterReply-with_session Consistent id (λ target. replied tt) (close n first_key) s
          (λ target. h)
          (λ target entry _.
            elim (disconnect n entry.session)
              as (λ r. AfterReply Consistent (elim r [
                | done u c ↦ replied tt (record s {
                  client_sessions = remove target s.client_sessions;
                  active_session_id = next_active target s;
                })
                | failed e c ↦
                    refused (CommandError.session_error e)
                      (record s { client_sessions = remove target s.client_sessions })
                | panicked ↦ crashed
              ])) [ done u c ↦ closed-Consistent target s h | failed e c ↦ tt | panicked ↦ tt ])
