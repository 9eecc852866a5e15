-- ===== src/Web/Licensing.antt =====
-- The activation that the server holds (web/server.go): NewServer, and the handlers that show and set
-- the license key. `file` is what the license file holds, `none` where it cannot be read. The write
-- of the file is a parameter: `write_error` is its error for a text, `left` what a write that fails
-- leaves.
use Prim.Native.String.{◌++◌}
use certlight.Base.{
  ℕ, ◌≡◌, sym, ◌∙◌, ap, String, Bool, true, false, ◌&&◌, not, Option, none, some, ◌==◌,
  if◌then◌else◌, Bool-cases, inl, inr, arith,
}
use certlight.License.Words.{trim_space}
use certlight.License.Trimming.{trim_space_twice, trim_space-newline}
use certlight.License.Tier.{Tier, free, tier_to_string}
use certlight.License.Key.{Codec}
use certlight.License.Activation.{Activation, activate}
use certlight.Web.Status.{Reply}

pub record Licensing : Type 0 where
  pub activation : Activation
  pub file : Option String

-- The server's configuration.
pub record LicensingConfig (B PK SK : Type 0) : Type 0 where
  pub codec : Codec B PK SK
  pub show_date : ℕ → String
  pub issuer_pub : PK
  pub module_id : String
  pub license_file : String
  pub write_error : String → Option String
  pub left : String → Option String

abbrev pub is_free : Tier → Bool
is_free free = true
is_free _ = false

abbrev pub key_in : Option String → String
key_in none = ""
key_in (some text) = trim_space text

module _ {B PK SK : Type 0} (c : LicensingConfig B PK SK) where
  abbrev pub activated : String → ℕ → Activation
  activated key now = activate c.codec c.show_date c.issuer_pub c.module_id key now

  -- The activation of `NewServer`.
  unfoldable pub new_activation : Option String → ℕ → Activation
  new_activation file now = activated (if c.license_file == "" then "" else key_in file) now

  unfoldable pub new_licensing : Option String → ℕ → Licensing
  unfolding new_activation
  new_licensing file now = record { activation = new_activation file now; file = file }

  -- The tier and the notice, and the e-mail and the end of the license, if there is one.
  unfoldable pub handle_get_license : Licensing → String × String × Option (String × ℕ)
  handle_get_license s = (
    tier_to_string s.activation.tier,
    s.activation.notice,
    elim s.activation.license [ none ↦ none | some lic ↦ some (lic.email, lic.expires_at) ],
  )

  abbrev pub accepted : Activation → Licensing → Licensing × Reply
  accepted act s =
      (record s { activation = act }, record { code = 200; message = tier_to_string act.tier })

  -- What follows the write of the file.
  abbrev pub written : Activation → String → Option String → Licensing → Licensing × Reply
  written act text (some x) s = (
    record s { file = c.left text },
    record { code = 500; message = "could not persist license key" },
  )
  written act text none s = accepted act (record s { file = some text })

  abbrev pub persist : Activation → String → Licensing → Licensing × Reply
  persist act key s =
      if c.license_file == ""
      then accepted act s
      else written act (key ++ "\n") (c.write_error (key ++ "\n")) s

  abbrev pub set_key : String → ℕ → Licensing → Licensing × Reply
  set_key key now s =
      if is_free (activated key now).tier && not (key == "")
      then (s, record { code = 400; message = (activated key now).notice })
      else persist (activated key now) key s

  -- `body` is the key of the request, `none` where it is no JSON.
  unfoldable pub handle_set_license : ℕ → Option String → Licensing → Licensing × Reply
  handle_set_license now none s = (s, record { code = 400; message = "invalid JSON" })
  handle_set_license now (some raw) s = set_key (trim_space raw) now s

  -- Where a reply of success leaves the license.
  abbrev InForce : ℕ → String → Licensing → Licensing → Type 0
  InForce now key s t =
      (t.activation ≡ activated key now)
      × (t.file ≡ (if c.license_file == "" then s.file else some (key ++ "\n")))

  written-InForce :
      (act : Activation) (text : String) (e : Option String) (s t : Licensing) (reply : Reply)
      → written act text e s ≡ (t, reply)
      → reply.code ≡ 200
      → (t.activation ≡ act) × (t.file ≡ some text)
  written-InForce act text (some x) s t reply h good =
      absurd (ground (arith, ap (λ (p : Licensing × Reply). p.1.code) h, good))
  written-InForce act text none s t reply h good = (
    sym (ap (λ (p : Licensing × Reply). p.0.activation) h),
    sym (ap (λ (p : Licensing × Reply). p.0.file) h),
  )

  set_key-InForce :
      (key : String) (now : ℕ) (s t : Licensing) (reply : Reply)
      → set_key key now s ≡ (t, reply)
      → reply.code ≡ 200
      → InForce now key s t
  set_key-InForce key now s t reply h good =
      elim (Bool-cases (is_free (activated key now).tier && not (key == ""))) [
        | inl bad ↦
            absurd (ground (arith, ap (λ (p : Licensing × Reply). p.1.code) (rw bad at h), good))
        | inr fine ↦ elim (Bool-cases (c.license_file == "")) [
          | inl no_file ↦
              let is = rw (fine, no_file) at h in
              rw no_file (
                sym (ap (λ (p : Licensing × Reply). p.0.activation) is),
                sym (ap (λ (p : Licensing × Reply). p.0.file) is),
              )
          | inr file ↦ rw file (
              written-InForce (activated key now) (key ++ "\n") (c.write_error (key ++ "\n")) s t
                reply (rw (fine, file) at h) good)
        ]
      ]

  -- A key that the dashboard accepts is in force at once. A restart at that time comes up under the
  -- same activation where the server has a license file, and under that of no key where it has none.
  pub set_license_restart :
      (now : ℕ) (raw : String) (s t : Licensing) (reply : Reply)
      → handle_set_license now (some raw) s ≡ (t, reply)
      → reply.code ≡ 200
      → (t.activation ≡ activated (trim_space raw) now)
        × ((new_licensing t.file now).activation
            ≡ (if c.license_file == "" then activated "" now else t.activation))
  unfolding handle_set_license new_licensing new_activation
  set_license_restart now raw s t reply h good =
      let (is, holds) = set_key-InForce (trim_space raw) now s t reply h good in
      elim (Bool-cases (c.license_file == "")) [
        | inl no_file ↦ (is, rw no_file)
        | inr file ↦
            let same : key_in t.file ≡ trim_space raw =
              ap key_in (rw file at holds)
              ∙ trim_space-newline (trim_space raw)
              ∙ trim_space_twice raw in
            (is, rw (file, same) (sym is))
      ]

  written-refused :
      (act : Activation) (text : String) (e : Option String) (s t : Licensing) (reply : Reply)
      → written act text e s ≡ (t, reply)
      → reply.code ≡ 400
      → ⊥
  written-refused act text (some x) s t reply h bad =
      ground (arith, ap (λ (p : Licensing × Reply). p.1.code) h, bad)
  written-refused act text none s t reply h bad =
      ground (arith, ap (λ (p : Licensing × Reply). p.1.code) h, bad)

  set_key-refused :
      (key : String) (now : ℕ) (s t : Licensing) (reply : Reply)
      → set_key key now s ≡ (t, reply)
      → reply.code ≡ 400
      → t ≡ s
  set_key-refused key now s t reply h bad =
      elim (Bool-cases (is_free (activated key now).tier && not (key == ""))) [
        | inl refuses ↦ sym (ap (λ (p : Licensing × Reply). p.0) (rw refuses at h))
        | inr fine ↦ elim (Bool-cases (c.license_file == "")) [
          | inl no_file ↦ absurd (
              ground
                (arith, ap (λ (p : Licensing × Reply). p.1.code) (rw (fine, no_file) at h), bad))
          | inr file ↦ absurd (
              written-refused (activated key now) (key ++ "\n") (c.write_error (key ++ "\n")) s t
                reply (rw (fine, file) at h) bad)
        ]
      ]

  -- A key that the dashboard refuses leaves the activation and the file as they are.
  pub set_license_refused :
      (now : ℕ) (body : Option String) (s t : Licensing) (reply : Reply)
      → handle_set_license now body s ≡ (t, reply)
      → reply.code ≡ 400
      → t ≡ s
  unfolding handle_set_license
  set_license_refused now none s t reply h bad = sym (ap (λ (p : Licensing × Reply). p.0) h)
  set_license_refused now (some raw) s t reply h bad =
      set_key-refused (trim_space raw) now s t reply h bad
