-- ===== src/Notify/Sorting.antt =====
-- `sortBySeverity` is a stable sort.
use certlight.Base.{ℕ, ◌≤◌, List, [], ◌∷◌, eqb, if◌then◌else◌, All}
use certlight.Core.Finding.{Finding}
use certlight.Notify.Digest.{severity_rank}

abbrev rank_of : Finding → ℕ
rank_of f = severity_rank f.severity

-- Each finding ranks at least as high as those behind it.
abbrev pub IsSorted : List Finding → Type 0
IsSorted [] = Unit
IsSorted (f ∷ fs) = All (λ g. severity_rank g.severity ≤ severity_rank f.severity) fs × IsSorted fs

-- The findings of one rank, in their order.
abbrev pub of_rank : ℕ → List Finding → List Finding
of_rank k [] = []
of_rank k (f ∷ fs) =
    let rest = of_rank k fs in if eqb (severity_rank f.severity) k then f ∷ rest else rest

abbrev IsRising : List Finding → Type 0
IsRising [] = Unit
IsRising (f ∷ fs) = All (λ g. rank_of f ≤ rank_of g) fs × IsRising fs
