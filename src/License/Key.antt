-- ===== src/License/Key.antt =====
-- Signing and verifying a key (license/license.go). `Codec` is what the package takes from
-- ed25519, base64 and json: `B` are byte strings, `PK` and `SK` keys. A time is a number.
use Prim.Native.String.{◌++◌}
use text.Mathlib.Text.{starts_with}
use certlight.Base.{
  ℕ, String, Bool, true, ◌||◌, ◌&&◌, not, Option, none, some, ◌==◌, ltb, eqb, if◌then◌else◌, Result,
  ok, err, ◌≡◌,
}
use certlight.License.Words.{trim_space, trim_prefix, split_dot, every}
use certlight.License.Tier.{Tier, tier_to_string}

pub record License : Type 0 where
  pub product : String
  pub tier : Tier
  pub email : String
  pub issued_at : ℕ
  pub expires_at : ℕ
  pub key_id : String

pub record Codec (B PK SK : Type 0) : Type 0 where
  pub sign : SK → B → B
  pub verifies : PK → B → B → Bool
  pub has_key_size : PK → Bool  -- len(pub) == ed25519.PublicKeySize
  pub encode : B → String  -- base64.RawURLEncoding
  pub decode : String → Option B
  pub marshal : License → Result String B
  pub unmarshal : B → Option License

abbrev pub prefix : String
prefix = "SNTL1-"

pub data KeyError : Type 0 where
  malformed bad_signature : KeyError
  wrong_product : String → KeyError

-- The answers of `Verify`: only an expired license comes with its error.
pub data Verdict : Type 0 where
  valid : License → Verdict
  expired : License → Verdict
  refused : KeyError → Verdict

module _ {B PK SK : Type 0} (c : Codec B PK SK) where
  -- The key around the payload that `json.Marshal` gave.
  abbrev pub seal : SK → Result String B → Result String String
  seal priv (err x) = err x
  seal priv (ok payload) =
      ok (prefix ++ (c.encode payload ++ ("." ++ c.encode (c.sign priv payload))))

  unfoldable pub sign_key : SK → License → Result String String
  sign_key priv lic =
      if lic.product == "" || tier_to_string lic.tier == ""
      then err "license needs product and tier"
      else seal priv (c.marshal lic)

  -- From the parsed payload on.
  unfoldable pub check_license : String → ℕ → License → Verdict
  check_license product now lic =
      if not (lic.product == product)
      then refused (wrong_product lic.product)
      else if ltb lic.expires_at now
      then expired lic
      else valid lic

  unfoldable pub check_signature : PK → String → ℕ → B → B → Verdict
  unfolding check_license
  check_signature pub_key product now payload sig =
      if not (c.has_key_size pub_key)
      then refused bad_signature
      else if not (c.verifies pub_key payload sig)
      then refused bad_signature
      else elim (c.unmarshal payload) [
        | none ↦ refused malformed
        | some lic ↦ check_license product now lic
      ]

  unfoldable pub check_parts : PK → String → ℕ → String → String → Verdict
  unfolding check_signature
  check_parts pub_key product now p s = elim (c.decode p) [
    | none ↦ refused malformed
    | some payload ↦ elim (c.decode s) [
      | none ↦ refused malformed
      | some sig ↦ check_signature pub_key product now payload sig
    ]
  ]

  unfoldable pub verify : PK → String → String → ℕ → Verdict
  unfolding check_parts trim_space trim_prefix split_dot
  verify pub_key product key now =
      if not (starts_with key prefix)
      then refused malformed
      else elim (split_dot (trim_prefix (trim_space key) prefix)) [
        | none ↦ refused malformed
        | some (p, s) ↦ check_parts pub_key product now p s
      ]

-- A character of base64url: a letter, a digit, `-` or `_`.
unfoldable pub is_base64 : ℕ → Bool
is_base64 n =
    ltb 64 n && ltb n 91 || ltb 96 n && ltb n 123 || ltb 47 n && ltb n 58 || eqb n 45 || eqb n 95

-- What the code relies on: an ed25519 signature verifies under the key of its pair, the encodings
-- are read back, and base64url writes nothing but its alphabet.
pub record CodecLaws {B PK SK : Type 0} (c : Codec B PK SK) : Type 0 where
  pub are_pair : PK → SK → Bool
  pub verifies-sign :
      (pub_key : PK) (priv : SK) (b : B)
      → are_pair pub_key priv ≡ true
      → c.verifies pub_key b (c.sign priv b) ≡ true
  pub pair_size :
      (pub_key : PK) (priv : SK) → are_pair pub_key priv ≡ true → c.has_key_size pub_key ≡ true
  pub decode-encode : (b : B) → c.decode (c.encode b) ≡ some b
  pub encode_alphabet : (b : B) → every is_base64 (c.encode b) ≡ true
  pub unmarshal-marshal : (l : License) (b : B) → c.marshal l ≡ ok b → c.unmarshal b ≡ some l
