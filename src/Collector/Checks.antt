-- ===== src/Collector/Checks.antt =====
-- The checks of a connection (certlight/collector.go). Days are exact quotients, where the code
-- divides floats; the difference of two times stops at the largest int64, as `Sub` does.
use Prim.Native.String.{◌++◌}
use certlight.Base.{
  refl, ℕ, suc, ◌-◌, ◌/◌, ◌^◌, String, Bool, true, false, ◌&&◌, not, List, Option, none, some, eqb,
  ltb, leb, if◌then◌else◌, ◌==◌,
}
use mathlib.Core.List.{[], ◌∷◌}
use certlight.Core.Severity.{Severity, critical, high, medium, unknown_status}
use certlight.Core.Value.{text, bool, num, strings, Fields, no_fields, field}
use certlight.Core.Finding.{Finding, fingerprint_of}
use certlight.Core.Collector.{Target}
use certlight.Collector.Connection.{
  PublicKey, rsa, ecdsa, other_key, SignatureAlgorithm, other_algorithm, Leaf, Connection, Library,
  collector_id,
}

-- What a check says of a weakness.
pub record Weakness : Type 0 where
  pub check : String
  pub discriminator : String
  pub title : String
  pub severity : Severity
  pub remediation : String
  pub evidence : Fields

-- The finding with the core's fields left at their zero values.
unfoldable pub to_finding : Library → Target → Weakness → Finding
unfolding fingerprint_of
to_finding lib t w = record {
  fingerprint = fingerprint_of lib.digest collector_id t.canonical w.check w.discriminator;
  target = t.canonical;
  check = w.check;
  title = w.title;
  severity = w.severity;
  remediation = w.remediation;
  evidence = some w.evidence;
  id = "";
  module_id = "";
  status = unknown_status "" refl;
  group_id = none;
  first_seen = 0;
  last_seen = 0;
  resolved_at = none;
}

module _ (lib : Library) where
  -- The certificate's fields and those of the check, which have other keys.
  unfoldable pub evidence : Leaf → Fields → Fields
  evidence leaf extra = field "subject" (text leaf.subject) (
      field "issuer" (text leaf.issuer) (
        field "not_before" (text (lib.show_time leaf.not_before)) (
          field "not_after" (text (lib.show_time leaf.not_after))
            (field "serial" (text leaf.serial) extra))))

  abbrev pub days_between : ℕ → ℕ → ℕ
  days_between a b = (if ltb (b - a) (2 ^ 63) then b - a else 2 ^ 63 - 1) / 86400000000000

  -- The stages of the days that are left, `none` above 30.
  unfoldable pub stage : ℕ → Option Severity
  stage days =
      if ltb 30 days
      then none
      else if leb days 1
      then some critical
      else if leb days 7
      then some high
      else some medium

  abbrev pub expiring : Leaf → ℕ → Option Severity → List Weakness
  expiring leaf days none = []
  expiring leaf days (some severity) =
      record {
        check = "tls.expiry";
        discriminator = "";
        title = "Certificate expires in " ++ (lib.show days ++ " day(s)");
        severity = severity;
        remediation =
            "Renew the certificate before it expires. If renewal is automated (ACME), verify the timer/cron actually runs and can reach the CA.";
        evidence = evidence leaf (field "days_left" (num days) no_fields);
      }
      ∷ []

  unfoldable pub check_expiry : Leaf → ℕ → List Weakness
  unfolding stage evidence
  check_expiry leaf now =
      if ltb leaf.not_after now
      then record {
        check = "tls.expired";
        discriminator = "";
        title =
            "Certificate EXPIRED " ++ (lib.show (days_between leaf.not_after now) ++ " day(s) ago");
        severity = critical;
        remediation =
            "Replace this certificate immediately — clients are already failing. If you use ACME/Let's Encrypt, the renewal automation has broken; check its logs.";
        evidence =
            evidence leaf
              (field "expired_days_ago" (num (days_between leaf.not_after now)) no_fields);
      }
        ∷ []
      else expiring leaf (days_between now leaf.not_after) (stage (days_between now leaf.not_after))

  unfoldable pub check_hostname : Leaf → String → List Weakness
  unfolding evidence
  check_hostname leaf host =
      if lib.is_ip host
      then []
      else if lib.covers leaf host
      then []
      else record {
        check = "tls.hostname_mismatch";
        discriminator = "";
        title = "Certificate does not cover " ++ lib.quote host;
        severity = high;
        remediation =
            "Reissue the certificate with this hostname in its SAN list, or point the service at the certificate that actually covers it.";
        evidence =
            evidence leaf (
              field "requested_host" (text host) (field "sans" (strings leaf.dns_names) no_fields));
      }
        ∷ []

  abbrev pub is_self_signed : Connection → Bool
  is_self_signed s = eqb s.others 0 && s.leaf.issuer == s.leaf.subject

  unfoldable pub check_chain : Connection → ℕ → List Weakness
  unfolding evidence
  check_chain s now =
      if lib.is_trusted s now
      then []
      else if not (is_self_signed s) && eqb s.others 0
      then record {
        check = "tls.incomplete_chain";
        discriminator = "";
        title = "Server sends no intermediate certificates";
        severity = medium;
        remediation =
            "Configure the server to send the full chain (leaf + intermediates). Most CAs ship a 'fullchain' bundle — deploy that file instead of the bare certificate.";
        evidence = evidence s.leaf (field "presented_chain_length" (num 1) no_fields);
      }
        ∷ []
      else record {
        check = "tls.untrusted_chain";
        discriminator = "";
        title =
            if is_self_signed s
            then "Certificate is self-signed"
            else "Certificate chain is not trusted";
        severity = high;
        remediation =
            "Install a certificate from a trusted CA (e.g. via ACME/Let's Encrypt), or distribute your private CA to every client that must trust this service.";
        evidence = evidence s.leaf (
            field "self_signed" (bool (is_self_signed s))
              (field "presented_chain_length" (num (suc s.others)) no_fields));
      }
        ∷ []

  unfoldable pub version_name : ℕ → String
  version_name v =
      if eqb v 769
      then "TLS 1.0"
      else if eqb v 770
      then "TLS 1.1"
      else if eqb v 771
      then "TLS 1.2"
      else if eqb v 772
      then "TLS 1.3"
      else lib.show_version v

  unfoldable pub check_protocol : Connection → List Weakness
  unfolding version_name
  check_protocol s =
      if leb 771 s.version
      then []
      else record {
        check = "tls.weak_protocol";
        discriminator = version_name s.version;
        title = "Connection negotiated obsolete " ++ version_name s.version;
        severity = high;
        remediation =
            "Disable TLS 1.0/1.1 on this service and require TLS 1.2 or newer. Modern clients have not needed legacy TLS since 2020.";
        evidence = field "negotiated" (text (version_name s.version)) no_fields;
      }
        ∷ []

  -- `accepted` is the version of a connection with at most TLS 1.1, if the server accepts one.
  unfoldable pub probe_legacy : Option ℕ → List Weakness
  unfolding version_name
  probe_legacy none = []
  probe_legacy (some accepted) =
      record {
        check = "tls.legacy_protocol";
        discriminator = "";
        title = "Server still accepts legacy " ++ version_name accepted;
        severity = medium;
        remediation =
            "Raise the server's minimum TLS version to 1.2. The main connection may use TLS 1.3, but accepting 1.0/1.1 leaves a downgrade path open and fails compliance scans.";
        evidence = field "accepted_version" (text (version_name accepted)) no_fields;
      }
      ∷ []

  unfoldable pub check_cipher : Connection → List Weakness
  check_cipher s =
      if lib.is_insecure s.cipher
      then record {
        check = "tls.weak_cipher";
        discriminator = lib.cipher_name s.cipher;
        title = "Weak cipher suite negotiated: " ++ lib.cipher_name s.cipher;
        severity = high;
        remediation =
            "Remove this cipher suite from the server configuration and prefer AEAD suites (AES-GCM or ChaCha20-Poly1305).";
        evidence = field "cipher" (text (lib.cipher_name s.cipher)) no_fields;
      }
        ∷ []
      else []

  unfoldable pub check_key_strength : PublicKey → List Weakness
  check_key_strength (rsa bits) =
      if ltb bits 2048
      then record {
        check = "tls.weak_key";
        discriminator = "rsa-" ++ lib.show bits;
        title = "RSA key too small: " ++ (lib.show bits ++ " bits");
        severity = high;
        remediation =
            "Reissue the certificate with an RSA key of at least 2048 bits (or switch to an ECDSA P-256 key).";
        evidence = field "algorithm" (text "RSA") (field "bits" (num bits) no_fields);
      }
        ∷ []
      else []
  check_key_strength ecdsa = []
  check_key_strength other_key = []

  abbrev pub is_obsolete : SignatureAlgorithm → Bool
  is_obsolete other_algorithm = false
  is_obsolete _ = true

  unfoldable pub check_signature_algorithm : SignatureAlgorithm → List Weakness
  check_signature_algorithm a =
      if is_obsolete a
      then record {
        check = "tls.legacy_signature";
        discriminator = lib.algorithm_name a;
        title = "Certificate signed with obsolete algorithm: " ++ lib.algorithm_name a;
        severity = high;
        remediation =
            "Reissue the certificate — SHA-1/MD5 signatures are forgeable and rejected by modern clients. Any current CA will sign with SHA-256 or better.";
        evidence = field "signature_algorithm" (text (lib.algorithm_name a)) no_fields;
      }
        ∷ []
      else []
