-- ===== src/Tests/License.antt =====
-- A codec whose byte strings are numbers, written in unary, with one license that it can write.
use Prim.Native.String.{[], ◌∷◌, count}
use text.Mathlib.TextLemmas.{length-cons}
use certlight.Base.{
  ℕ, zero, suc, ◌≡◌, refl, sym, ◌∙◌, ap, String, Bool, true, false, ◌&&◌, none, some, ◌==◌, eq_iff,
  eqb, if◌then◌else◌, Result, ok, err, arith,
}
use certlight.License.Words.{every, trim_space}
use certlight.License.Tier.{Tier, pro, free, can_add_target, allows_channel}
use certlight.License.Key.{License, Codec, CodecLaws, valid, sign_key, verify, is_base64}
use certlight.License.RoundTrip.{verify-sign_key}
use certlight.License.Activation.{activate}
use certlight.License.Floor.{IsEarned, activate-IsEarned, activate-floor}

abbrev pub bought : License
bought = record {
  product = "certwatch";
  tier = pro;
  email = "ops@example.com";
  issued_at = 100;
  expires_at = 200;
  key_id = "k1";
}

abbrev pub is_pro : Tier → Bool
is_pro pro = true
is_pro _ = false

is_pro-eq : (t : Tier) → is_pro t ≡ true → t ≡ pro
is_pro-eq pro h = refl
is_pro-eq Tier.free h = cc
is_pro-eq Tier.team h = cc
is_pro-eq (Tier.other_tier s) h = cc

abbrev pub is_bought : License → Bool
is_bought l =
    l.product == "certwatch"
    && is_pro l.tier
    && l.email == "ops@example.com"
    && eqb l.issued_at 100
    && eqb l.expires_at 200
    && l.key_id == "k1"

pub unary : ℕ → String
unary zero = []
unary (suc n) = "A" ∷ unary n

count-unary : (n : ℕ) → count (unary n) ≡ n
unfolding unary
count-unary zero = refl
count-unary (suc n) = length-cons "A" (unary n) ∙ ap suc (count-unary n)

every-unary : (n : ℕ) → every is_base64 (unary n) ≡ true
unfolding unary every is_base64
every-unary zero = refl
every-unary (suc n) = every-unary n

abbrev pub toy : Codec ℕ ℕ ℕ
toy = record {
  sign = λ priv payload. suc priv;
  verifies = λ pub_key payload sig. eqb sig (suc pub_key);
  has_key_size = λ pub_key. true;
  encode = unary;
  decode = λ s. some (count s);
  marshal = λ l. if is_bought l then ok 3 else err "unsupported";
  unmarshal = λ b. if eqb b 3 then some bought else none;
}

is_bought-eq : (l : License) → is_bought l ≡ true → l ≡ bought
is_bought-eq l h =
    let product = (eq_iff l.product "certwatch").0 (ground (arith, h)) in
    let tier = is_pro-eq l.tier (ground (arith, h)) in
    let email = (eq_iff l.email "ops@example.com").0 (ground (arith, h)) in
    let issued : l.issued_at ≡ 100 = ground (arith, h) in
    let over : l.expires_at ≡ 200 = ground (arith, h) in
    let key_id = (eq_iff l.key_id "k1").0 (ground (arith, h)) in
    λ i. record {
      product = product i;
      tier = tier i;
      email = email i;
      issued_at = issued i;
      expires_at = over i;
      key_id = key_id i;
    }

marshal-inv :
    (writable : Bool) (b : ℕ)
    → Path (Result String ℕ) (if writable then ok 3 else err "unsupported") (ok b)
    → (writable ≡ true) × (b ≡ 3)
marshal-inv true b h = (refl, cc)
marshal-inv false b h = cc

toy_laws : CodecLaws toy
toy_laws = record {
  are_pair = λ pub_key priv. eqb pub_key priv;
  verifies-sign = λ pub_key priv b h. ground (arith, h);
  pair_size = λ pub_key priv h. refl;
  decode-encode = λ b. ap some (count-unary b);
  encode_alphabet = λ b. every-unary b;
  unmarshal-marshal = λ l b h.
      let (writable, is) = marshal-inv (is_bought l) b h in
      rw is (ap some (sym (is_bought-eq l writable)));
}

abbrev pub key : String
key = "SNTL1-AAA.AA"

signed : sign_key toy 1 bought ≡ ok key
unfolding sign_key unary
signed = refl

verify-sign_key_example : verify toy 1 "certwatch" key 150 ≡ valid bought
unfolding toy_laws
verify-sign_key_example = verify-sign_key toy toy_laws 1 1 bought "certwatch" key 150 refl signed

activate-IsEarned_example :
    IsEarned toy
      (λ at. "2 Jan 2026")
      1
      "certwatch"
      150
      (activate toy (λ at. "2 Jan 2026") 1 "certwatch" key 150)
activate-IsEarned_example = activate-IsEarned toy (λ at. "2 Jan 2026") 1 "certwatch" key 150

-- After its end the key gives the free tier.
expired_key : (activate toy (λ at. "2 Jan 2026") 1 "certwatch" key 250).tier ≡ free
unfolding activate trim_space verify
expired_key = refl

activate-floor_example :
    (can_add_target (activate toy (λ at. "2 Jan 2026") 1 "certwatch" "SNTL1-x" 250).limits 9 ≡ true)
    × (allows_channel
          (activate toy (λ at. "2 Jan 2026") 1 "certwatch" "SNTL1-x" 250).limits
          "webhook"
        ≡ true)
activate-floor_example =
    activate-floor toy (λ at. "2 Jan 2026") 1 "certwatch" "SNTL1-x" 250 9 (omega arith)
