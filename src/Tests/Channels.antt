-- ===== src/Tests/Channels.antt =====
-- The channels and the flags that make them.
use Prim.Native.String.{◌++◌}
use certlight.Base.{◌+◌, ◌≡◌, refl, String, false, none, some, List, [], ◌∷◌, map, ok, All, length}
use certlight.Notify.Digest.{Digest}
use certlight.Notify.Channels.{
  Client, WebhookChannel, WebhookPayload, Request, webhook_send, post, Accepted, IsWhole, IsSigned,
  webhook_send-Accepted,
}
use certlight.Notify.Syslog.{Host, SyslogChannel, lines, sanitize_syslog}
use certlight.Notify.Syslog.Frames.{IsFrame, lines-IsFrame, SentInOrder, syslog_send_in_order}
use certlight.License.Words.{every}
use certlight.Notify.Hfs.{Meta}
use certlight.Cmd.Channels.{
  ChannelFlags, Channel, hfs, webhook_sink, syslog_sink, hec_sink, Outside, build, build_parts,
  webhook_part, syslog_part, file_part, hec_part,
}
use certlight.Cmd.Channels.Complete.{destination, wanted, build_complete}
use certlight.Tests.Engine.{weak_key}

abbrev digest : Digest
digest = record {
  module_id = "certwatch";
  opened = weak_key ∷ [];
  resolved = weak_key ∷ [];
  at = 7;
}

abbrev client : Client
client = record {
  marshal_payload = λ p. ok "{}";
  marshal_texts = λ t. ok "{}";
  bad_url = λ u. none;
  answer = λ r. ok (record { status_code = 204; status = "204 No Content" });
}

abbrev hook : WebhookChannel
hook = record { url = "https://h/x"; secret = "s3" }

webhook_send-Accepted_example :
    (p : WebhookPayload) × (b : String) × (r : Request) × (client.marshal_payload p ≡ ok b)
    × ((webhook_send client hook digest).0 ≡ some r)
    × IsWhole digest p
    × IsSigned "s3" r.headers
    × Accepted client "https://h/x" b r
unfolding webhook_send post
webhook_send-Accepted_example = webhook_send-Accepted client hook digest refl

abbrev host : Host
host = record {
  os_hostname = some "scanner";
  pid = 42;
  now = 9;
  stamp = λ t. "Jan  1 00:00:00";
  to_lower = λ s. s;
  is_ip = λ s. false;
  dial = λ network addr. none;
  write = λ done line. none;
}

abbrev collector : SyslogChannel
collector = record {
  addr = "127.0.0.1:5514";
  network = "udp";
  hostname = "";
  tag = "";
  facility = 0;
}

lines-IsFrame_example :
    All IsFrame (lines host collector digest) × (length (lines host collector digest) ≡ 1 + 1)
unfolding every
lines-IsFrame_example = lines-IsFrame host collector digest (λ t. refl) refl refl

-- A title with a line break stays one line.
one_line : sanitize_syslog "a\nb" ≡ "a b"
unfolding sanitize_syslog
one_line = refl

syslog_send_in_order_example : SentInOrder host collector digest
syslog_send_in_order_example = syslog_send_in_order host collector digest

abbrev pub outside : Outside String String
outside = record {
  parse_evidence_mode = λ s. some s;
  read_secret_file = λ f. ok ("in " ++ f);
  host_of = λ a. a;
  tls_config = λ ca name. ok ca;
  validate = λ s. none;
  endpoint_error = λ h. none;
  quote = λ s. s;
  format_json = "json";
  format_cef = "cef";
}

abbrev pub flags : ChannelFlags
flags = record {
  webhook = "https://h/x";
  webhook_format = "v2";
  webhook_secret_file = "hook.txt";
  syslog_addr = "127.0.0.1:5514";
  syslog_network = "tls";
  syslog_format = "json";
  syslog_rfc = 5424;
  syslog_ca_file = "ca.pem";
  export_file = "";
  hec_url = "https://splunk:8088";
  hec_token_file = "hec.txt";
  hec_index = "";
  hec_ca_file = "";
  evidence = "redacted";
}

abbrev command : Meta
command = record { product = "certwatch"; version = "0.1.5"; host = "scanner" }

abbrev built : List (Channel String String)
built =
    hfs (webhook_sink "https://h/x" "in hook.txt") command "redacted"
    ∷ hfs
        (syslog_sink (record {
          addr = "127.0.0.1:5514";
          network = "tls";
          format = "json";
          rfc = 5424;
          tls = some "ca.pem";
        }))
        command "redacted"
    ∷ hfs
        (hec_sink
          (record { url = "https://splunk:8088"; token = "in hec.txt"; index = ""; tls = none }))
        command "redacted"
    ∷ []

build_complete_example : map destination built ≡ wanted outside flags
unfolding build build_parts webhook_part syslog_part file_part hec_part
build_complete_example = build_complete outside command flags built refl
