-- ===== src/License/Tier.antt =====
-- Tiers and what each allows (license/license.go). A tier is a string there: `other_tier` stands for
-- every string that no constant names.
use certlight.Base.{
  ℕ, String, Bool, true, false, ◌||◌, List, [], ◌∷◌, ◌==◌, eqb, ltb, if◌then◌else◌,
}

pub data Tier : Type 0 where
  free pro team : Tier
  other_tier : String → Tier

abbrev pub tier_to_string : Tier → String
tier_to_string free = "free"
tier_to_string pro = "pro"
tier_to_string team = "team"
tier_to_string (other_tier s) = s

-- In `max_targets` and `retention_days`, 0 is no limit.
pub record Limits : Type 0 where
  pub max_targets : ℕ
  pub retention_days : ℕ
  pub channels : List String
  pub multi_user : Bool
  pub custom_interval : Bool
  pub scan_now : Bool

abbrev pub free_limits : Limits
free_limits = record {
  max_targets = 10;
  retention_days = 7;
  channels = "webhook" ∷ [];
  multi_user = false;
  custom_interval = false;
  scan_now = false;
}

abbrev pub pro_limits : Limits
pro_limits = record {
  max_targets = 100;
  retention_days = 365;
  channels = "webhook" ∷ "email" ∷ "slack" ∷ "telegram" ∷ [];
  multi_user = false;
  custom_interval = true;
  scan_now = true;
}

abbrev pub team_limits : Limits
team_limits = record {
  max_targets = 0;
  retention_days = 0;
  channels = "webhook" ∷ "email" ∷ "slack" ∷ "telegram" ∷ "pagerduty" ∷ "teams" ∷ [];
  multi_user = true;
  custom_interval = true;
  scan_now = true;
}

-- `limitsFor`: the entry of `TierLimits`, or that of the free tier.
unfoldable pub limits_for : Tier → Limits
limits_for free = free_limits
limits_for pro = pro_limits
limits_for team = team_limits
limits_for (other_tier _) = free_limits

unfoldable pub can_add_target : Limits → ℕ → Bool
can_add_target l current = eqb l.max_targets 0 || ltb current l.max_targets

abbrev pub names : String → List String → Bool
names name [] = false
names name (c ∷ cs) = c == name || names name cs

unfoldable pub allows_channel : Limits → String → Bool
allows_channel l name = names name l.channels

-- `RetentionCutoff`: `back_days now n` is `now.AddDate(0, 0, -n)`, and 0 is Go's zero time.
unfoldable pub retention_cutoff : (ℕ → ℕ → ℕ) → Limits → ℕ → ℕ
retention_cutoff back_days l now =
    if eqb l.retention_days 0 then 0 else back_days now l.retention_days
