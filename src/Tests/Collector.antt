-- ===== src/Tests/Collector.antt =====
-- A self-signed certificate with a short key that ends in five days.
use certlight.Base.{◌≡◌, refl, String, true, false, none, List, Result, ok, All, ◌*◌}
use mathlib.Core.List.{[], ◌∷◌, map}
use certlight.Core.Finding.{Finding}
use certlight.Core.Collector.{Target}
use certlight.Collector.Connection.{rsa, other_algorithm, Connection, Library, validate_target}
use certlight.Collector.Checks.{to_finding}
use certlight.Collector.Collect.{collect, grade}
use certlight.Collector.Accepted.{IsAccepted, collect-IsAccepted}

abbrev pub lib : Library
lib = record {
  digest = λ s. "d";
  show = λ n. "5";
  quote = λ s. s;
  show_time = λ n. "2026-01-01T00:00:00Z";
  show_version = λ n. "unknown";
  is_ip = λ s. false;
  covers = λ leaf host. true;
  is_trusted = λ s now. false;
  is_insecure = λ n. false;
  cipher_name = λ n. "TLS_AES_128_GCM_SHA256";
  algorithm_name = λ a. "SHA256-RSA";
  split_host_port = λ s. none;
  join_host_port = λ host port. "h:443";
}

abbrev target : Target
target = record { raw = "h"; canonical = "h:443"; meta = ("host", "h") ∷ ("port", "443") ∷ [] }

-- A host without a port gets the port 443.
default_port : validate_target lib "h" ≡ ok target
unfolding validate_target
default_port = refl

abbrev connection : Connection
connection = record {
  leaf = record {
    subject = "CN=h";
    issuer = "CN=h";
    serial = "1";
    not_before = 0;
    not_after = 5 * 86400000000000;
    dns_names = "h" ∷ [];
    public_key = rsa 1024;
    signature_algorithm = other_algorithm;
  };
  others = 0;
  version = 772;
  cipher = 4865;
}

abbrev dialled : (Result String Connection)
dialled = ok connection

abbrev graded : List Finding
graded = map (to_finding lib target) (grade lib connection "h" 0 none)

collected : collect lib target 0 dialled none ≡ ok graded
unfolding collect
collected = refl

-- The end is near, the certificate is self-signed, and the key is short.
checks_found :
    map (λ (f : Finding). f.check) graded
    ≡ "tls.expiry" ∷ "tls.untrusted_chain" ∷ "tls.weak_key" ∷ []
unfolding grade to_finding
checks_found = refl

collect-IsAccepted_example : All (IsAccepted lib target) graded
collect-IsAccepted_example =
    collect-IsAccepted lib target 0 dialled none graded (λ s. refl) refl collected
