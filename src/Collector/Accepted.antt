-- ===== src/Collector/Accepted.antt =====
-- The engine accepts what the collector returns (certlight/collector.go, core/finding.go).
use certlight.Base.{ℕ, ◌≡◌, refl, subst, String, List, Option, none, All, map, Result, ok, err}
use mathlib.Core.List.{[], ◌∷◌}
use certlight.Core.Finding.{Finding, validate_for_ingest, fingerprint_of}
use certlight.Core.Collector.{Target}
use certlight.Collector.Connection.{Connection, Library}
use certlight.Collector.Checks.{Weakness, to_finding}
use certlight.Collector.Collect.{
  grade, host_of, collect, IsText, IsComplete, append-All, check_expiry-IsComplete,
  check_hostname-IsComplete, check_chain-IsComplete, check_protocol-IsComplete,
  check_cipher-IsComplete, check_key_strength-IsComplete, check_signature_algorithm-IsComplete,
  probe_legacy-IsComplete,
}

module _ (lib : Library) where
  grade-IsComplete :
      (s : Connection) (host : String) (now : ℕ) (legacy : Option ℕ)
      → All IsComplete (grade lib s host now legacy)
  unfolding grade
  grade-IsComplete s host now legacy =
      append-All IsComplete _ _ (check_expiry-IsComplete lib s.leaf now) (
        append-All IsComplete _ _ (check_hostname-IsComplete lib s.leaf host) (
          append-All IsComplete _ _ (check_chain-IsComplete lib s now) (
            append-All IsComplete _ _ (check_protocol-IsComplete lib s) (
              append-All IsComplete _ _ (check_cipher-IsComplete lib s) (
                append-All IsComplete _ _ (check_key_strength-IsComplete lib s.leaf.public_key) (
                  append-All IsComplete _ _
                    (check_signature_algorithm-IsComplete lib s.leaf.signature_algorithm)
                    (probe_legacy-IsComplete lib legacy)))))))

  -- The engine takes the finding in, for this target.
  abbrev pub IsAccepted : Target → Finding → Type 0
  IsAccepted t f = (validate_for_ingest f ≡ none) × (f.target ≡ t.canonical)

  to_finding-IsAccepted :
      (t : Target) (w : Weakness)
      → ((s : String) → IsText (lib.digest s))
      → IsText t.canonical
      → IsComplete w
      → IsAccepted t (to_finding lib t w)
  unfolding to_finding validate_for_ingest fingerprint_of
  to_finding-IsAccepted t w digests address h =
      (rw (digests _, address, h.check, h.title, h.remediation, h.severity) refl, refl)

  map-IsAccepted :
      (t : Target) (ws : List Weakness)
      → ((s : String) → IsText (lib.digest s))
      → IsText t.canonical
      → All IsComplete ws
      → All (IsAccepted t) (map (to_finding lib t) ws)
  map-IsAccepted t [] digests address h = tt
  map-IsAccepted t (w ∷ ws) digests address h =
      (to_finding-IsAccepted t w digests address h.0, map-IsAccepted t ws digests address h.1)

  -- Where a digest is never empty and the target has an address, every finding that the collector
  -- returns for a connection passes the check at ingest and is of the scanned target.
  pub collect-IsAccepted :
      {E : Type 0} (t : Target) (now : ℕ) (r : Result E Connection) (legacy : Option ℕ)
      (findings : List Finding)
      → ((s : String) → IsText (lib.digest s))
      → IsText t.canonical
      → collect lib t now r legacy ≡ ok findings
      → All (IsAccepted t) findings
  unfolding collect
  collect-IsAccepted t now (err x) legacy findings digests address h = cc
  collect-IsAccepted t now (ok s) legacy findings digests address h =
      let is : map (to_finding lib t) (grade lib s (host_of lib t) now legacy) ≡ findings = cc in
      subst (All (IsAccepted t)) is (
        map-IsAccepted t (grade lib s (host_of lib t) now legacy) digests address
          (grade-IsComplete s (host_of lib t) now legacy))
