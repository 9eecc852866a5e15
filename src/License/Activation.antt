-- ===== src/License/Activation.antt =====
-- `Activate`: the state that the product runs under (license/license.go). `show_date` is
-- `Format("2 Jan 2006")`.
use Prim.Native.String.{◌++◌}
use certlight.Base.{ℕ, String, not, Option, none, some, ◌==◌, if◌then◌else◌}
use certlight.License.Words.{trim_space}
use certlight.License.Tier.{Tier, free, Limits, free_limits, limits_for}
use certlight.License.Key.{License, Codec, Verdict, valid, expired, refused, verify}

pub record Activation : Type 0 where
  pub tier : Tier
  pub limits : Limits
  pub license : Option License
  pub notice : String

abbrev pub free_activation : String → Activation
free_activation notice = record {
  tier = free;
  limits = free_limits;
  license = none;
  notice = notice;
}

-- The `switch` on the answer of `Verify`.
unfoldable pub activate_verdict : (ℕ → String) → Verdict → Activation
activate_verdict show_date (valid lic) = record {
  tier = lic.tier;
  limits = limits_for lic.tier;
  license = some lic;
  notice = "";
}
activate_verdict show_date (expired lic) = free_activation (
    "License expired on "
    ++ (show_date lic.expires_at ++ " — running on free limits. Renew to restore your tier."))
activate_verdict show_date (refused _) =
    free_activation "License key is not valid for this product — running on free limits."

module _ {B PK SK : Type 0} (c : Codec B PK SK) (show_date : ℕ → String) where
  unfoldable pub activate : PK → String → String → ℕ → Activation
  unfolding activate_verdict
  activate pub_key product key now =
      if not (c.has_key_size pub_key)
      then free_activation (
          if not (trim_space key == "")
          then "This is the free edition, which cannot activate license keys. "
            ++ "Download the licensed build to use your key — your key is fine."
          else "")
      else if trim_space key == ""
      then free_activation ""
      else activate_verdict show_date (verify c pub_key product key now)
