-- ===== src/Collector/Connection.antt =====
-- What the collector reads of a TLS connection, and what it takes from Go's library
-- (certlight/collector.go). A time is a number of nanoseconds.
use Prim.Native.Char.{code}
use Prim.Native.String.{[], ◌∷◌}
use certlight.Base.{
  ℕ, suc, String, Bool, List, Option, none, some, eqb, ltb, if◌then◌else◌, ◌==◌, Result, ok, err,
}
use certlight.Core.Collector.{ModuleInfo, Target}
use certlight.License.Words.{trim_space}

pub data PublicKey : Type 0 where
  rsa : ℕ → PublicKey  -- its bits
  ecdsa other_key : PublicKey

pub data SignatureAlgorithm : Type 0 where
  sha1_rsa ecdsa_sha1 md5_rsa md2_rsa other_algorithm : SignatureAlgorithm

-- The leaf certificate.
pub record Leaf : Type 0 where
  pub subject : String
  pub issuer : String
  pub serial : String
  pub not_before : ℕ
  pub not_after : ℕ
  pub dns_names : List String
  pub public_key : PublicKey
  pub signature_algorithm : SignatureAlgorithm

-- The state of a connection: `dial` refuses one without a leaf; `others` counts the other
-- certificates.
pub record Connection : Type 0 where
  pub leaf : Leaf
  pub others : ℕ
  pub version : ℕ
  pub cipher : ℕ

-- What the checks ask of Go's library.
pub record Library : Type 0 where
  pub digest : String → String  -- SHA-256, cut and in hexadecimal
  pub show : ℕ → String  -- %d
  pub quote : String → String  -- %q
  pub show_time : ℕ → String  -- Format(time.RFC3339)
  pub show_version : ℕ → String  -- unknown (0x%04x)
  pub is_ip : String → Bool  -- net.ParseIP(host) != nil
  pub covers : Leaf → String → Bool  -- VerifyHostname gives no error
  pub is_trusted : Connection → ℕ → Bool  -- Verify gives no error at this time
  pub is_insecure : ℕ → Bool  -- is in tls.InsecureCipherSuites()
  pub cipher_name : ℕ → String
  pub algorithm_name : SignatureAlgorithm → String
  pub split_host_port : String → Option (String × String)
  pub join_host_port : String → String → String

abbrev pub collector_id : String
collector_id = "certwatch"

abbrev pub describe : ModuleInfo
describe = record {
  id = collector_id;
  name = "CertLight";
  version = "0.1.5";
  target_kind = "host:port";
  default_interval = 43200000000000;
  resolve_after = 1;
}

-- How often an ASCII character stands in a text.
unfoldable pub count_of : ℕ → String → ℕ
count_of n [] = 0
count_of n (c ∷ s) = let later = count_of n s in if eqb (code c) n then suc later else later

abbrev pub target_at : Library → String → String → String → Result String Target
target_at lib raw host port =
    if host == ""
    then err "host must not be empty"
    else ok (record {
      raw = raw;
      canonical = lib.join_host_port host port;
      meta = List.◌∷◌ ("host", host) (List.◌∷◌ ("port", port) List.[]);
    })

-- A text that holds `://` holds a slash.
unfoldable pub validate_target : Library → String → Result String Target
unfolding count_of trim_space
validate_target lib raw =
    let trimmed = trim_space raw in
    if trimmed == ""
    then err "enter a host like example.com or example.com:8443"
    else if ltb 0 (count_of 47 trimmed)
    then err "enter just the host (no https:// or path): e.g. example.com"
    else elim (lib.split_host_port trimmed) [
      | some (host, port) ↦ target_at lib raw host port
      | none ↦
          if ltb 1 (count_of 58 trimmed)
          then err "IPv6 targets must include a port, e.g. [::1]:443"
          else target_at lib raw trimmed "443"
    ]
