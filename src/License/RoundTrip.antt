-- ===== src/License/RoundTrip.antt =====
-- Verifying a key that was signed (license/license.go).
use Prim.Native.Char.{code}
use Prim.Native.String.{[], ◌∷◌, ◌++◌}
use text.Mathlib.TextPositions.{starts_with-append}
use certlight.Base.{
  ℕ, ◌≡◌, refl, ◌∙◌, ap, String, Bool, true, false, not, eqb, ltb, if◌then◌else◌, ok, arith, ◌==◌,
  Result, err,
}
use certlight.License.Words.{
  is_space, every, every-append, trim_space-every, trim_prefix-append, split_dot-append,
}
use certlight.License.Key.{
  License, Codec, CodecLaws, prefix, refused, wrong_product, valid, expired, seal, sign_key,
  check_license, check_signature, check_parts, verify, is_base64,
}

every_mono :
    (p q : ℕ → Bool) (s : String)
    → ((n : ℕ) → p n ≡ true → q n ≡ true)
    → every p s ≡ true
    → every q s ≡ true
unfolding every
every_mono p q [] h all = refl
every_mono p q (c ∷ s) h all = ground (arith, all, h (code c), every_mono p q s h)

base64-is_space : (n : ℕ) → is_base64 n ≡ true → not (is_space n) ≡ true
unfolding is_base64 is_space
base64-is_space n h = ground (arith, h)

base64-dot : (n : ℕ) → is_base64 n ≡ true → not (eqb n 46) ≡ true
unfolding is_base64
base64-dot n h = ground (arith, h)

abbrev joined : String → String → String
joined p s = prefix ++ (p ++ ("." ++ s))

joined-every :
    (p s : String)
    → every is_base64 p ≡ true
    → every is_base64 s ≡ true
    → every (λ n. not (is_space n)) (joined p s) ≡ true
unfolding every is_space
joined-every p s h k =
    rw
      (
        every-append _ prefix (p ++ ("." ++ s)),
        every-append _ p ("." ++ s),
        every-append _ "." s,
        every_mono is_base64 (λ n. not (is_space n)) p base64-is_space h,
        every_mono is_base64 (λ n. not (is_space n)) s base64-is_space k,
      )
      refl

if-ok :
    (x : String) {key : String} (b : Bool) (r : Result String String)
    → (if b then err x else r) ≡ ok key
    → r ≡ ok key
if-ok x true r h = cc
if-ok x false r h = h

module _ {B PK SK : Type 0} (c : Codec B PK SK) where
  -- A key of the right form is split into its parts, whatever is in them.
  verify-joined :
      (pub_key : PK) (product : String) (now : ℕ) (p s : String)
      → every is_base64 p ≡ true
      → every is_base64 s ≡ true
      → verify c pub_key product (joined p s) now ≡ check_parts c pub_key product now p s
  unfolding verify
  verify-joined pub_key product now p s h k =
      rw
        (
          starts_with-append prefix (p ++ ("." ++ s)),
          trim_space-every (joined p s) (joined-every p s h k),
          trim_prefix-append prefix (p ++ ("." ++ s)),
          split_dot-append p s (every_mono is_base64 (λ n. not (eqb n 46)) p base64-dot h),
          verify,
        )
        refl

  seal-inv :
      (priv : SK) (r : Result String B) (key : String)
      → seal c priv r ≡ ok key
      → (payload : B) × (r ≡ ok payload)
        × (key ≡ joined (c.encode payload) (c.encode (c.sign priv payload)))
  seal-inv priv (err x) key h = cc
  seal-inv priv (ok payload) key h = (payload, refl, cc)

  sign_key-inv :
      (priv : SK) (lic : License) (key : String)
      → sign_key c priv lic ≡ ok key
      → (payload : B) × (c.marshal lic ≡ ok payload)
        × (key ≡ joined (c.encode payload) (c.encode (c.sign priv payload)))
  unfolding sign_key
  sign_key-inv priv lic key h = seal-inv priv (c.marshal lic) key (if-ok _ _ _ h)

module _ {B PK SK : Type 0} (c : Codec B PK SK) (laws : CodecLaws c) where
  -- A key that the issuer signs verifies under the key of the pair as the license that went in: it
  -- is valid for its product until it expires, expired afterwards, and refused for another product.
  pub verify-sign_key :
      (pub_key : PK) (priv : SK) (lic : License) (product key : String) (now : ℕ)
      → laws.are_pair pub_key priv ≡ true
      → sign_key c priv lic ≡ ok key
      → verify c pub_key product key now ≡ (
          if not (lic.product == product)
          then refused (wrong_product lic.product)
          else if ltb lic.expires_at now
          then expired lic
          else valid lic)
  unfolding check_parts check_signature check_license
  verify-sign_key pub_key priv lic product key now pair signed =
      let (payload, written, is) = sign_key-inv c priv lic key signed in
      let sig : B = c.sign priv payload in
      ap (λ k. verify c pub_key product k now) is
      ∙ verify-joined c pub_key product now (c.encode payload) (c.encode sig)
          (laws.encode_alphabet payload) (laws.encode_alphabet sig)
      ∙ rw
          (
            laws.decode-encode payload,
            laws.decode-encode sig,
            laws.pair_size pub_key priv pair,
            laws.verifies-sign pub_key priv payload pair,
            laws.unmarshal-marshal lic payload written,
            check_parts,
            check_signature,
          )
          refl
