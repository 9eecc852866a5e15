-- ===== src/License/Floor.antt =====
-- What an activation can and cannot be (license/license.go).
use text.Mathlib.Text.{starts_with}
use certlight.Base.{
  ℕ, ◌≡◌, refl, sym, ◌∙◌, ap, subst, ◌<◌, ◌⊎◌, inl, inr, String, Bool, true, false, not, Option,
  none, some, Bool-cases, ◌==◌, eq_iff, ltb, if◌then◌else◌, arith,
}
use certlight.License.Words.{trim_space, trim_prefix, split_dot}
use certlight.License.Tier.{
  Tier, free, pro, team, other_tier, free_limits, limits_for, can_add_target, allows_channel,
}
use certlight.License.Key.{
  License, Codec, KeyError, malformed, bad_signature, wrong_product, Verdict, valid, expired,
  refused, prefix, verify, check_parts, check_signature, check_license,
}
use certlight.License.Activation.{Activation, activate, activate_verdict}

limits_for-floor :
    (t : Tier) (n : ℕ)
    → n < 10
    → (can_add_target (limits_for t) n ≡ true) × (allows_channel (limits_for t) "webhook" ≡ true)
unfolding limits_for can_add_target allows_channel
limits_for-floor free n h = (ground (arith, h), refl)
limits_for-floor pro n h = (ground (arith, h), refl)
limits_for-floor team n h = (refl, refl)
limits_for-floor (other_tier s) n h = (ground (arith, h), refl)

-- A license that a payload signed by the issuer holds, for this product and not yet over.
pub record IsBacked {B PK SK : Type 0} (c : Codec B PK SK) (pub_key : PK) (product : String)
    (now : ℕ) (lic : License) : Type 0 where
  pub payload : B
  pub sig : B
  pub signed : c.verifies pub_key payload sig ≡ true
  pub holds : c.unmarshal payload ≡ some lic
  pub of_product : lic.product ≡ product
  pub in_time : lic.expires_at < now → ⊥

-- How a verdict comes to be valid: each test on the way passes.
if-valid :
    (x : KeyError) (b : Bool) (v : Verdict) {lic : License}
    → (if b then refused x else v) ≡ valid lic
    → (b ≡ false) × (v ≡ valid lic)
if-valid x true v h = cc
if-valid x false v h = (refl, h)

if-in_time :
    (b : Bool) (l : License) {lic : License}
    → (if b then expired l else valid l) ≡ valid lic
    → (b ≡ false) × (l ≡ lic)
if-in_time true l h = cc
if-in_time false l h = (refl, cc)

some-valid {ℓ} :
    {A : Type ℓ} (x : KeyError) (o : Option A) (k : A → Verdict) {lic : License}
    → (elim o [ none ↦ refused x | some a ↦ k a ]) ≡ valid lic
    → (a : A) × (o ≡ some a) × (k a ≡ valid lic)
some-valid x none k h = cc
some-valid x (some a) k h = (a, refl, h)

not-false : (b : Bool) → not b ≡ false → b ≡ true
not-false b h = ground (arith, h)

module _ {B PK SK : Type 0} (c : Codec B PK SK) where
  check_license-IsBacked :
      (pub_key : PK) (product : String) (now : ℕ) (payload sig : B) (l lic : License)
      → c.verifies pub_key payload sig ≡ true
      → c.unmarshal payload ≡ some l
      → check_license c product now l ≡ valid lic
      → IsBacked c pub_key product now lic
  unfolding check_license
  check_license-IsBacked pub_key product now payload sig l lic signed holds h =
      let (own, rest) = if-valid (wrong_product l.product) (not (l.product == product)) _ h in
      let (fine, same) = if-in_time (ltb l.expires_at now) l rest in
      record {
        payload = payload;
        sig = sig;
        signed = signed;
        holds = holds ∙ ap some same;
        of_product =
            ap (λ x. x.product) (sym same)
            ∙ (eq_iff l.product product).0 (not-false (l.product == product) own);
        in_time =
            subst (λ x. x.expires_at < now → ⊥) same (λ lt. absurd (ground (arith, lt, fine)));
      }

  check_parts-IsBacked :
      (pub_key : PK) (product : String) (now : ℕ) (p s : String) (lic : License)
      → check_parts c pub_key product now p s ≡ valid lic
      → IsBacked c pub_key product now lic
  unfolding check_parts check_signature
  check_parts-IsBacked pub_key product now p s lic h =
      let (payload, _, parsed) = some-valid malformed (c.decode p) _ h in
      let (sig, _, decoded) = some-valid malformed (c.decode s) _ parsed in
      let (_, sized) = if-valid bad_signature (not (c.has_key_size pub_key)) _ decoded in
      let (signed, read) = if-valid bad_signature (not (c.verifies pub_key payload sig)) _ sized in
      let (l, holds, rest) = some-valid malformed (c.unmarshal payload) _ read in
      check_license-IsBacked pub_key product now payload sig l lic
        (not-false (c.verifies pub_key payload sig) signed) holds rest

  verify-IsBacked :
      (pub_key : PK) (product key : String) (now : ℕ) (lic : License)
      → verify c pub_key product key now ≡ valid lic
      → IsBacked c pub_key product now lic
  unfolding verify
  verify-IsBacked pub_key product key now lic h =
      let (_, rest) = if-valid malformed (not (starts_with key prefix)) _ h in
      let (parts, _, checked) =
        some-valid malformed (split_dot (trim_prefix (trim_space key) prefix)) _ rest in
      check_parts-IsBacked pub_key product now parts.0 parts.1 lic checked

  module _ (show_date : ℕ → String) where
    -- What an activation is, read off its license.
    abbrev pub IsEarned : PK → String → ℕ → Activation → Type 0
    IsEarned pub_key product now act =
        ((act.tier ≡ free) × (act.limits ≡ free_limits) × (act.license ≡ none))
        ⊎ ((lic : License) × (act.license ≡ some lic)
            × (act.tier ≡ lic.tier)
            × (act.limits ≡ limits_for lic.tier)
            × (act.notice ≡ "")
            × IsBacked c pub_key product now lic)

    activate_verdict-IsEarned :
        (pub_key : PK) (product : String) (now : ℕ) (v : Verdict)
        → ((lic : License) → v ≡ valid lic → IsBacked c pub_key product now lic)
        → IsEarned pub_key product now (activate_verdict show_date v)
    unfolding activate_verdict
    activate_verdict-IsEarned pub_key product now (valid lic) h =
        inr (lic, refl, refl, refl, refl, h lic refl)
    activate_verdict-IsEarned pub_key product now (expired lic) h = inl (refl, refl, refl)
    activate_verdict-IsEarned pub_key product now (refused x) h = inl (refl, refl, refl)

    -- An activation is the free tier without a license, or what a license grants that the issuer
    -- signed for this product and that is not over.
    pub activate-IsEarned :
        (pub_key : PK) (product key : String) (now : ℕ)
        → IsEarned pub_key product now (activate c show_date pub_key product key now)
    unfolding activate
    activate-IsEarned pub_key product key now = elim (Bool-cases (c.has_key_size pub_key)) [
      | inr oss ↦ rw (oss, activate) (inl (refl, refl, refl))
      | inl sized ↦ elim (Bool-cases (trim_space key == "")) [
        | inl blank ↦ rw (sized, blank, activate) (inl (refl, refl, refl))
        | inr given ↦
            rw (sized, given, activate)
              (activate_verdict-IsEarned pub_key product now (verify c pub_key product key now)
                (λ lic h. verify-IsBacked pub_key product key now lic h))
      ]
    ]

    -- Whatever the key, at least ten targets and the webhook channel are allowed.
    pub activate-floor :
        (pub_key : PK) (product key : String) (now n : ℕ)
        → n < 10
        → (can_add_target (activate c show_date pub_key product key now).limits n ≡ true)
          × (allows_channel (activate c show_date pub_key product key now).limits "webhook" ≡ true)
    unfolding limits_for
    activate-floor pub_key product key now n h = elim (activate-IsEarned pub_key product key now) [
      | inl (_, is, _) ↦ rw is (limits_for-floor free n h)
      | inr (lic, _, _, is, _, _) ↦ rw is (limits_for-floor lic.tier n h)
    ]
