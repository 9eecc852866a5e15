-- ===== src/Notify/Digest.antt =====
-- Events, digests and the order of their findings (notify/notify.go).
use certlight.Base.{ℕ, String, Bool, true, false, ◌&&◌, List, [], ◌∷◌, ltb, if◌then◌else◌}
use mathlib.Core.List.{reverse}
use certlight.Core.Severity.{Severity, critical, high, medium, low, info, unknown}
use certlight.Core.Finding.{Finding}

pub data EventKind : Type 0 where
  opened resolved : EventKind

abbrev pub kind_to_string : EventKind → String
kind_to_string opened = "opened"
kind_to_string resolved = "resolved"

pub record Event : Type 0 where
  pub kind : EventKind
  pub module_id : String
  pub finding : Finding

pub record Digest : Type 0 where
  pub module_id : String
  pub opened : List Finding  -- most severe first
  pub resolved : List Finding
  pub at : ℕ

abbrev pub is_nil {ℓ} : {A : Type ℓ} → List A → Bool
is_nil [] = true
is_nil (_ ∷ _) = false

-- `Empty`
unfoldable pub is_empty : Digest → Bool
is_empty d = is_nil d.opened && is_nil d.resolved

unfoldable pub severity_rank : Severity → ℕ
severity_rank critical = 4
severity_rank high = 3
severity_rank medium = 2
severity_rank low = 1
severity_rank info = 0
severity_rank (unknown _ _) = 0

-- The inner loop of `sortBySeverity`: `f` moves left past the findings of a lower rank. The sorted
-- part of the slice is held from its right end.
unfoldable pub sink : Finding → List Finding → List Finding
sink f [] = f ∷ []
sink f (g ∷ left) =
    let moved = sink f left in
    if ltb (severity_rank g.severity) (severity_rank f.severity) then g ∷ moved else f ∷ g ∷ left

-- The outer loop, over the findings that are not sorted yet.
unfoldable pub sort_from : List Finding → List Finding → List Finding
unfolding sink
sort_from left [] = left
sort_from left (f ∷ fs) = sort_from (sink f left) fs

unfoldable pub sort_by_severity : List Finding → List Finding
unfolding sort_from
sort_by_severity fs = reverse (sort_from [] fs)
