-- ===== src/Cmd/Channels.antt =====
-- The alert and export flags and the channels that `build` makes of them (cmd/certlight/channels.go).
-- Packages hfs and sink of hexward-core, which the command calls, are the record `Outside`.
pub mod Complete
use Prim.Native.String.{◌++◌}
use mathlib.Core.List
use certlight.Base.{
  ℕ, ◌≡◌, refl, sym, ◌∙◌, ap, String, Bool, true, false, ◌&&◌, ◌||◌, not, Option, none, some, List,
  [], ◌∷◌, map, ◌==◌, if◌then◌else◌, Result, Result-cases, ok, err, ◌>>=◌, bind-ok, Bool-cases, inl,
  inr, arith,
}
use certlight.Notify.Channels.{WebhookChannel, SlackChannel, TelegramChannel}
use certlight.Notify.Syslog.{SyslogChannel}
use certlight.Notify.Hfs.{Meta}

pub record ChannelFlags : Type 0 where
  pub webhook : String
  pub webhook_format : String
  pub webhook_secret_file : String
  pub syslog_addr : String
  pub syslog_network : String
  pub syslog_format : String
  pub syslog_rfc : ℕ
  pub syslog_ca_file : String
  pub export_file : String
  pub hec_url : String
  pub hec_token_file : String
  pub hec_index : String
  pub hec_ca_file : String
  pub evidence : String

-- The sinks of hexward-core that the command makes; `T` is a `tls.Config`.
pub record SyslogSink (T : Type 0) : Type 0 where
  pub addr : String
  pub network : String
  pub format : String
  pub rfc : ℕ
  pub tls : Option T

pub record HecSink (T : Type 0) : Type 0 where
  pub url : String
  pub token : String
  pub index : String
  pub tls : Option T

pub data Sink (T : Type 0) : Type 0 where
  webhook_sink : String → String → Sink T
  syslog_sink : SyslogSink T → Sink T
  file_sink : String → Sink T
  hec_sink : HecSink T → Sink T

-- `M` is an evidence mode.
pub data Channel (T M : Type 0) : Type 0 where
  webhook : WebhookChannel → Channel T M
  slack : SlackChannel → Channel T M
  telegram : TelegramChannel → Channel T M
  syslog : SyslogChannel → Channel T M
  hfs : Sink T → Meta → M → Channel T M

pub record Outside (T M : Type 0) : Type 0 where
  pub parse_evidence_mode : String → Option M
  pub read_secret_file : String → Result String String
  pub host_of : String → String  -- `net.SplitHostPort`
  pub tls_config : String → String → Result String T
  pub validate : SyslogSink T → Option String
  pub endpoint_error : HecSink T → Option String
  pub quote : String → String  -- the verb `%q`
  pub format_json : String
  pub format_cef : String

-- `fmt.Errorf("…: %w", err)`
abbrev pub wrap : {A : Type 0} → String → Result String A → Result String A
wrap text (ok a) = ok a
wrap text (err x) = err (text ++ ": " ++ x)

abbrev pub unless : Option String → Result String Unit
unless none = ok tt
unless (some x) = err x

module _ {T M : Type 0} (out : Outside T M) (meta : Meta) (c : ChannelFlags) where
  abbrev pub evidence_mode : Option M → Result String M
  evidence_mode (some mode) = ok mode
  evidence_mode none =
      err ("-export-evidence " ++ out.quote c.evidence ++ ": want redacted or none")

  abbrev pub webhook_secret : Result String String
  webhook_secret =
      if c.webhook_secret_file == ""
      then ok ""
      else wrap "-webhook-secret-file" (out.read_secret_file c.webhook_secret_file)

  abbrev pub webhook_of : M → String → Result String (Channel T M)
  webhook_of mode secret =
      if c.webhook_format == "" || c.webhook_format == "v1"
      then ok (webhook (record { url = c.webhook; secret = secret }))
      else if c.webhook_format == "v2"
      then ok (hfs (webhook_sink c.webhook secret) meta mode)
      else err ("-webhook-format " ++ out.quote c.webhook_format ++ ": want v1 or v2")

  -- The part of the list that a set flag adds.
  abbrev pub single : {A : Type 0} → Result String A → Result String (List A)
  single (ok a) = ok (a ∷ [])
  single (err x) = err x

  unfoldable pub webhook_part : M → Result String (List (Channel T M))
  webhook_part mode = if c.webhook == "" then ok [] else single (webhook_secret >>= webhook_of mode)

  abbrev pub syslog_tls : Result String (Option T)
  syslog_tls =
      if c.syslog_network == "tls"
      then wrap "-syslog-ca-file" (out.tls_config c.syslog_ca_file (out.host_of c.syslog_addr))
        >>= (λ t. ok (some t))
      else ok none

  abbrev pub syslog_hfs : M → Option T → Result String (Channel T M)
  syslog_hfs mode tls =
      let s : SyslogSink T = record {
        addr = c.syslog_addr;
        network = c.syslog_network;
        format = c.syslog_format;
        rfc = c.syslog_rfc;
        tls = tls;
      } in
      unless (out.validate s) >>= (λ _. ok (hfs (syslog_sink s) meta mode))

  abbrev pub syslog_kv : Result String (Channel T M)
  syslog_kv =
      if c.syslog_network == "udp" || c.syslog_network == "tcp"
      then ok (
          syslog (record {
            addr = c.syslog_addr;
            network = c.syslog_network;
            hostname = "";
            tag = "";
            facility = 0;
          }))
      else err (
          "-syslog-network "
          ++ out.quote c.syslog_network
          ++ " with -syslog-format kv: want udp or tcp (tls needs json or cef)")

  abbrev pub syslog_of : M → Result String (Channel T M)
  syslog_of mode =
      if c.syslog_format == "" || c.syslog_format == "kv"
      then syslog_kv
      else if c.syslog_format == out.format_json || c.syslog_format == out.format_cef
      then syslog_tls >>= syslog_hfs mode
      else err ("-syslog-format " ++ out.quote c.syslog_format ++ ": want kv, json or cef")

  unfoldable pub syslog_part : M → Result String (List (Channel T M))
  syslog_part mode = if c.syslog_addr == "" then ok [] else single (syslog_of mode)

  unfoldable pub file_part : M → Result String (List (Channel T M))
  file_part mode =
      if c.export_file == "" then ok [] else ok (hfs (file_sink c.export_file) meta mode ∷ [])

  abbrev pub hec_tls : Result String (Option T)
  hec_tls =
      if c.hec_ca_file == ""
      then ok none
      else wrap "-hec-ca-file" (out.tls_config c.hec_ca_file "") >>= (λ t. ok (some t))

  abbrev pub plain_hec : String → Option T → HecSink T
  plain_hec token tls = record { url = c.hec_url; token = token; index = c.hec_index; tls = tls }

  abbrev pub hec_checked : M → String → Result String (Channel T M)
  hec_checked mode token =
      wrap "-hec-url" (unless (out.endpoint_error (plain_hec token none)))
      >>= (λ _. hec_tls)
      >>= (λ tls. ok (hfs (hec_sink (plain_hec token tls)) meta mode))

  abbrev pub hec_of : M → Result String (Channel T M)
  hec_of mode =
      if c.hec_token_file == ""
      then err "-hec-url needs -hec-token-file"
      else wrap "-hec-token-file" (out.read_secret_file c.hec_token_file) >>= hec_checked mode

  unfoldable pub hec_part : M → Result String (List (Channel T M))
  hec_part mode = if c.hec_url == "" then ok [] else single (hec_of mode)

  -- The list of one part, and then that of the rest.
  abbrev pub join :
      {A : Type 0} → Result String (List A) → Result String (List A) → Result String (List A)
  join p q = p >>= (λ xs. q >>= (λ ys. ok (List.◌++◌ xs ys)))

  unfoldable pub build_parts : M → Result String (List (Channel T M))
  unfolding webhook_part syslog_part file_part hec_part
  build_parts mode =
      join (webhook_part mode) (join (syslog_part mode) (join (file_part mode) (hec_part mode)))

  unfoldable pub build : Result String (List (Channel T M))
  unfolding build_parts
  build = evidence_mode (out.parse_evidence_mode c.evidence) >>= build_parts
