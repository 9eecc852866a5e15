-- ===== src/Collector/Collect.antt =====
-- `Collect`, and that the engine accepts what it returns (certlight/collector.go).
use Prim.Native.String.{◌++◌}
use text.Mathlib.TextLemmas.{append-eq-nil_iff}
use certlight.Base.{
  ℕ, ◌≡◌, refl, lookup, String, Bool, true, false, not, List, Option, none, some, eqb, ◌&&◌,
  Bool-cases, inl, inr, All, map, if◌then◌else◌, ◌==◌, eq_iff, text_ne, Result, ok, err, arith, leb,
  ltb,
}
use mathlib.Core.List.{[], ◌∷◌}
use mathlib.Core.List
use certlight.Core.Severity.{Severity, is_valid_severity}
use certlight.Core.Finding.{Finding}
use certlight.Core.Collector.{Target}
use certlight.Collector.Connection.{
  PublicKey, rsa, ecdsa, other_key, SignatureAlgorithm, Leaf, Connection, Library,
}
use certlight.Collector.Checks.{
  Weakness, to_finding, stage, expiring, days_between, check_expiry, check_hostname, check_chain,
  is_self_signed, check_protocol, probe_legacy, check_cipher, check_key_strength,
  check_signature_algorithm, is_obsolete, version_name,
}

module _ (lib : Library) where
  -- The checks in their order; `legacy` is the answer of the extra probe, `none` without it.
  unfoldable pub grade : Connection → String → ℕ → Option ℕ → List Weakness
  unfolding check_expiry check_hostname check_chain check_protocol check_cipher check_key_strength
      check_signature_algorithm probe_legacy
  grade s host now legacy = List.◌++◌ (check_expiry lib s.leaf now) (
      List.◌++◌ (check_hostname lib s.leaf host) (
        List.◌++◌ (check_chain lib s now) (
          List.◌++◌ (check_protocol lib s) (
            List.◌++◌ (check_cipher lib s) (
              List.◌++◌ (check_key_strength lib s.leaf.public_key) (
                List.◌++◌ (check_signature_algorithm lib s.leaf.signature_algorithm)
                  (probe_legacy lib legacy)))))))

  abbrev pub host_of : Target → String
  host_of t = elim (lookup "host" t.meta) [ none ↦ "" | some host ↦ host ]

  -- `dialled` is the connection to the canonical address, or why there is none.
  unfoldable pub collect :
      {E : Type 0} → Target → ℕ → Result E Connection → Option ℕ → Result E (List Finding)
  unfolding grade to_finding lookup
  collect t now (err x) legacy = err x
  collect t now (ok s) legacy = ok (map (to_finding lib t) (grade s (host_of t) now legacy))

abbrev pub IsText : String → Type 0
IsText s = (s == "") ≡ false

IsText-append : (s t : String) → IsText s → IsText (s ++ t)
IsText-append s t h =
    text_ne (s ++ t) ""
      (λ q. absurd (ground (arith, h, eq_iff s "", (append-eq-nil_iff {p = s} {q = t}).0 q)))

-- A weakness that the check at the door lets in.
pub record IsComplete (w : Weakness) : Type 0 where
  pub check : IsText w.check
  pub title : IsText w.title
  pub remediation : IsText w.remediation
  pub severity : is_valid_severity w.severity ≡ true

pub append-All {κ} :
    (P : Weakness → Type κ) (ws us : List Weakness) → All P ws → All P us → All P (List.◌++◌ ws us)
append-All P [] us h k = k
append-All P (w ∷ ws) us h k = (h.0, append-All P ws us h.1 k)

IsText-if : (b : Bool) (s t : String) → IsText s → IsText t → IsText (if b then s else t)
IsText-if true s t h k = h
IsText-if false s t h k = k

module _ (lib : Library) where
  pub expiring-IsComplete :
      (leaf : Leaf) (days : ℕ) (o : Option Severity)
      → ((severity : Severity) → o ≡ some severity → is_valid_severity severity ≡ true)
      → All IsComplete (expiring lib leaf days o)
  expiring-IsComplete leaf days none h = tt
  expiring-IsComplete leaf days (some severity) h = (
    record {
      check = refl;
      title = IsText-append "Certificate expires in " (lib.show days ++ " day(s)") refl;
      remediation = refl;
      severity = h severity refl;
    },
    tt,
  )

  stage-is_valid_severity :
      (days : ℕ) (severity : Severity)
      → stage lib days ≡ some severity
      → is_valid_severity severity ≡ true
  unfolding stage is_valid_severity
  stage-is_valid_severity days severity h = elim (Bool-cases (ltb 30 days)) [
    | inl far ↦ ground (arith, h, far)
    | inr near ↦ ground (arith, h, near)
  ]

  pub check_expiry-IsComplete : (leaf : Leaf) (now : ℕ) → All IsComplete (check_expiry lib leaf now)
  unfolding check_expiry is_valid_severity
  check_expiry-IsComplete leaf now = elim (Bool-cases (ltb leaf.not_after now)) [
    | inl over ↦
        rw (over, check_expiry)
          (
            record {
              check = refl;
              title = IsText-append "Certificate EXPIRED " _ refl;
              remediation = refl;
              severity = refl;
            },
            tt,
          )
    | inr fine ↦
        rw (fine, check_expiry)
          (expiring-IsComplete leaf (days_between lib now leaf.not_after)
            (stage lib (days_between lib now leaf.not_after))
            (stage-is_valid_severity (days_between lib now leaf.not_after)))
  ]

  pub check_chain-IsComplete : (s : Connection) (now : ℕ) → All IsComplete (check_chain lib s now)
  unfolding check_chain is_valid_severity
  check_chain-IsComplete s now = elim (Bool-cases (lib.is_trusted s now)) [
    | inl trusted ↦ rw (trusted, check_chain) tt
    | inr untrusted ↦ elim (Bool-cases (not (is_self_signed lib s) && eqb s.others 0)) [
      | inl incomplete ↦
          rw (untrusted, incomplete, check_chain)
            (record { check = refl; title = refl; remediation = refl; severity = refl }, tt)
      | inr other ↦
          rw (untrusted, other, check_chain)
            (
              record {
                check = refl;
                title =
                    IsText-if (is_self_signed lib s) "Certificate is self-signed"
                      "Certificate chain is not trusted" refl refl;
                remediation = refl;
                severity = refl;
              },
              tt,
            )
    ]
  ]

  pub check_hostname-IsComplete :
      (leaf : Leaf) (host : String) → All IsComplete (check_hostname lib leaf host)
  unfolding check_hostname is_valid_severity
  check_hostname-IsComplete leaf host = elim (Bool-cases (lib.is_ip host)) [
    | inl ip ↦ rw (ip, check_hostname) tt
    | inr dns ↦ elim (Bool-cases (lib.covers leaf host)) [
      | inl covered ↦ rw (dns, covered, check_hostname) tt
      | inr missed ↦
          rw (dns, missed, check_hostname)
            (
              record {
                check = refl;
                title = IsText-append "Certificate does not cover " (lib.quote host) refl;
                remediation = refl;
                severity = refl;
              },
              tt,
            )
    ]
  ]

  pub check_protocol-IsComplete : (s : Connection) → All IsComplete (check_protocol lib s)
  unfolding check_protocol is_valid_severity
  check_protocol-IsComplete s = elim (Bool-cases (leb 771 s.version)) [
    | inl modern ↦ rw (modern, check_protocol) tt
    | inr old ↦
        rw (old, check_protocol)
          (
            record {
              check = refl;
              title =
                  IsText-append "Connection negotiated obsolete " (version_name lib s.version) refl;
              remediation = refl;
              severity = refl;
            },
            tt,
          )
  ]

  pub probe_legacy-IsComplete : (accepted : Option ℕ) → All IsComplete (probe_legacy lib accepted)
  unfolding probe_legacy is_valid_severity
  probe_legacy-IsComplete none = tt
  probe_legacy-IsComplete (some v) = (
    record {
      check = refl;
      title = IsText-append "Server still accepts legacy " (version_name lib v) refl;
      remediation = refl;
      severity = refl;
    },
    tt,
  )

  pub check_cipher-IsComplete : (s : Connection) → All IsComplete (check_cipher lib s)
  unfolding check_cipher is_valid_severity
  check_cipher-IsComplete s = elim (Bool-cases (lib.is_insecure s.cipher)) [
    | inr safe ↦ rw (safe, check_cipher) tt
    | inl weak ↦
        rw (weak, check_cipher)
          (
            record {
              check = refl;
              title =
                  IsText-append "Weak cipher suite negotiated: " (lib.cipher_name s.cipher) refl;
              remediation = refl;
              severity = refl;
            },
            tt,
          )
  ]

  pub check_key_strength-IsComplete : (k : PublicKey) → All IsComplete (check_key_strength lib k)
  unfolding check_key_strength is_valid_severity
  check_key_strength-IsComplete ecdsa = tt
  check_key_strength-IsComplete other_key = tt
  check_key_strength-IsComplete (rsa bits) = elim (Bool-cases (ltb bits 2048)) [
    | inr long ↦ rw (long, check_key_strength) tt
    | inl short ↦
        rw (short, check_key_strength)
          (
            record {
              check = refl;
              title = IsText-append "RSA key too small: " (lib.show bits ++ " bits") refl;
              remediation = refl;
              severity = refl;
            },
            tt,
          )
  ]

  pub check_signature_algorithm-IsComplete :
      (a : SignatureAlgorithm) → All IsComplete (check_signature_algorithm lib a)
  unfolding check_signature_algorithm is_valid_severity
  check_signature_algorithm-IsComplete a = elim (Bool-cases (is_obsolete lib a)) [
    | inr current ↦ rw (current, check_signature_algorithm) tt
    | inl old ↦
        rw (old, check_signature_algorithm)
          (
            record {
              check = refl;
              title =
                  IsText-append "Certificate signed with obsolete algorithm: "
                    (lib.algorithm_name a) refl;
              remediation = refl;
              severity = refl;
            },
            tt,
          )
  ]
