-- ===== src/Core/Collector.antt =====
-- The metadata of a collector and a validated target (core/collector.go). A duration is a number
-- of nanoseconds; `resolve_after` is an int whose values below 1 are all modelled by 0.
use certlight.Base.{ℕ, String, List, ltb, if◌then◌else◌}
use certlight.Core.Finding.{Finding}

pub record ModuleInfo : Type 0 where
  pub id : String
  pub name : String
  pub version : String
  pub target_kind : String
  pub default_interval : ℕ
  pub resolve_after : ℕ

unfoldable pub resolve_after_or_default : ModuleInfo → ℕ
resolve_after_or_default m = if ltb m.resolve_after 1 then 1 else m.resolve_after

pub record Target : Type 0 where
  pub raw : String
  pub canonical : String
  pub meta : List (String × String)

pub record Change : Type 0 where
  pub kind : String
  pub finding : Finding
  pub detail : String
