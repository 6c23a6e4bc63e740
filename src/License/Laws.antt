-- ===== src/License/Laws.antt =====
-- app/src-tauri/src/license.rs: what activation stores and a later start reads, and how features depend on the
-- tier and on the time.
use secure_desk.Base.{
  ℕ, ◌+◌, ◌-◌, ◌/◌, ◌≤◌, ◌<◌, ◌^◌, ◌≡◌, refl, sym, ap, subst, ◌∙◌, true, false, some, List, ◌++◌,
  ltb, length, take, drop, take-length_append, drop-length_append, length-append, arith,
}
use secure_desk.Base.Outcome.{ok}
use secure_desk.License.{
  LicenseTier, free, basic, pro, enterprise, as_str, LicensePayload, License, is_expired, is_valid,
  pos, days_remaining, LicenseFeature, tier_has_feature,
}
use secure_desk.License.Manager.{
  Crypto, IsCrypto, LicenseManager, Store, Licensed, current_tier, has_feature, license_info, load,
  load_sealed, save, clean_key, activate,
}

abbrev pub rank : LicenseTier → ℕ
rank free = 0
rank basic = 1
rank pro = 2
rank enterprise = 3

-- A tier has every feature of the tiers below it.
pub tier_has_feature_monotone :
    (feature : LicenseFeature) (tier higher : LicenseTier)
    → rank tier ≤ rank higher
    → tier_has_feature feature tier ≡ true
    → tier_has_feature feature higher ≡ true
unfolding tier_has_feature
tier_has_feature_monotone feature tier higher h e = ground arith

-- As time goes on a manager loses features and gains none.
pub has_feature_antitone :
    (feature : LicenseFeature) (now later : ℕ) (m : LicenseManager)
    → now ≤ later
    → has_feature later feature m ≡ true
    → has_feature now feature m ≡ true
unfolding has_feature current_tier is_valid is_expired
has_feature_antitone feature now later m h e =
    ground (arith, tier_has_feature_monotone feature free (current_tier now m))

-- The information that is shown names the tier that the features go by.
pub license_info-current_tier :
    (now : ℕ) (m : LicenseManager) → (license_info now m).tier ≡ as_str (current_tier now m)
unfolding license_info current_tier
license_info-current_tier now m = ground arith

-- For a license that has not expired, with a time of expiry below 2^63, the days that remain are the whole
-- days until then.
pub days_remaining_lem :
    (now : ℕ) (l : License)
    → 0 < l.payload.expires_at
    → l.payload.expires_at < 2 ^ 63
    → is_expired now l ≡ false
    → days_remaining now l ≡ some (pos ((l.payload.expires_at - now) / 86400))
unfolding days_remaining is_expired
days_remaining_lem now l h k e = ground (arith, h, k, e)

module _ (c : Crypto) (lawful : IsCrypto c) where
  -- The manager and the file after a license was stored.
  abbrev pub stored : License → List ℕ → List ℕ → LicenseManager → Store → Licensed LicenseTier
  stored l nonce sealed m s = (
    ok l.payload.tier,
    record m { current_license = some l },
    record s { file = some (nonce ++ sealed) },
  )

  activate-stored :
      (now : ℕ) (nonce key bytes sealed : List ℕ) (l : License) (m : LicenseManager) (s : Store)
      → c.base64_decode (clean_key key) ≡ some bytes
      → c.from_slice bytes ≡ some l
      → is_expired now l ≡ false
      → c.encrypt m.encryption_key nonce (c.to_vec l) ≡ some sealed
      → s.writable ≡ true
      → activate c now (some nonce) key m s ≡ stored l nonce sealed m s
  unfolding activate save
  activate-stored now nonce key bytes sealed l m s e e' fresh sealed_as w =
      rw (activate, e, e', fresh, save, sealed_as, w) refl

  load-stored :
      (later : ℕ) (nonce sealed : List ℕ) (l : License) (m : LicenseManager) (s : Store)
      → length nonce ≡ 12
      → c.encrypt m.encryption_key nonce (c.to_vec l) ≡ some sealed
      → s.file ≡ some (nonce ++ sealed)
      → is_expired later l ≡ false
      → load c later m s ≡ (ok tt, record m { current_license = some l }, s)
  unfolding load is_valid
  load-stored later nonce sealed l m s twelve sealed_as e fresh =
      let long : ltb (length (nonce ++ sealed)) (12 + 16) ≡ false = ground (
        arith,
        twelve,
        length-append nonce sealed,
        lawful.tagged m.encryption_key nonce (c.to_vec l) sealed sealed_as,
      ) in
      let head : take 12 (nonce ++ sealed) ≡ nonce =
        ap (λ k. take k (nonce ++ sealed)) (sym twelve) ∙ take-length_append nonce sealed in
      let tail : drop 12 (nonce ++ sealed) ≡ sealed =
        ap (λ k. drop k (nonce ++ sealed)) (sym twelve) ∙ drop-length_append nonce sealed in
      rw
        (
          e,
          long,
          load_sealed,
          head,
          tail,
          lawful.opens m.encryption_key nonce (c.to_vec l) sealed sealed_as,
          lawful.reads l,
          fresh,
        )
        refl

  -- A license that has not expired is activated whatever its signature is, where the key is its text, the
  -- text is encrypted with a nonce of 12 bytes and the file can be written. A manager of the same device
  -- that loads the file while the license still counts has its tier.
  pub load-activate :
      (now later : ℕ) (nonce key bytes sealed signature : List ℕ) (payload : LicensePayload)
      (m started : LicenseManager) (s : Store)
      → let l : License = record { payload = payload; signature = signature } in
        c.base64_decode (clean_key key) ≡ some bytes
        → c.from_slice bytes ≡ some l
        → is_expired now l ≡ false
        → is_expired later l ≡ false
        → length nonce ≡ 12
        → c.encrypt m.encryption_key nonce (c.to_vec l) ≡ some sealed
        → s.writable ≡ true
        → started.encryption_key ≡ m.encryption_key
        → let activated = activate c now (some nonce) key m s in
          let loaded = load c later started activated.2 in
          (activated.0 ≡ ok payload.tier)
          × (loaded.0 ≡ ok tt)
          × (current_tier later loaded.1 ≡ payload.tier)
  unfolding current_tier is_valid
  load-activate now later nonce key bytes sealed signature payload m started s e e' fresh fresh'
        twelve sealed_as w same =
      let l : License = record { payload = payload; signature = signature } in
      let sealed_again : c.encrypt started.encryption_key nonce (c.to_vec l) ≡ some sealed =
        ap (λ k. c.encrypt k nonce (c.to_vec l)) same ∙ sealed_as in
      let loaded =
        load-stored later nonce sealed l started (record s { file = some (nonce ++ sealed) }) twelve
          sealed_again refl fresh' in
      subst
        (λ (a : Licensed LicenseTier).
          (a.0 ≡ ok payload.tier)
          × ((load c later started a.2).0 ≡ ok tt)
          × (current_tier later (load c later started a.2).1 ≡ payload.tier))
        (sym (activate-stored now nonce key bytes sealed l m s e e' fresh sealed_as w))
        (
          refl,
          ap (λ (r : Licensed (Unit {0})). r.0) loaded,
          ap (λ (r : Licensed (Unit {0})). current_tier later r.1) loaded ∙ rw fresh' refl,
        )
