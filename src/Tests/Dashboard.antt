-- ===== src/Tests/Dashboard.antt =====
-- The license page, the listings and AI Assist of the dashboard.
use Prim.Native.String.{◌++◌}
use certlight.Base.{
  if◌then◌else◌, ◌==◌, ℕ, ◌≡◌, refl, String, true, none, some, List, [], ◌∷◌, map, Result, ok,
  lookup, length,
}
use certlight.License.Words.{trim_space}
use certlight.License.Tier.{free, pro}
use certlight.License.Key.{verify}
use certlight.License.Activation.{activate, free_activation}
use certlight.Notify.Hfs.{Meta, Source}
use certlight.Store.Records.{Record}
use certlight.Store.Memory.{mem_ops, list_open, list_all, get, select}
use certlight.Sched.Registry.{new_scheduler}
use certlight.Web.Status.{Reply}
use certlight.Web.Licensing.{
  Licensing, LicensingConfig, activated, handle_set_license, new_licensing, set_license_restart,
  set_license_refused,
}
use certlight.Web.Listing.{
  Summary, or_zero, summary_of, to_json, shown, exported, export_meta, handle_summary,
  handle_findings, handle_findings_export,
}
use certlight.Web.Listing.Agreement.{
  occurrences, current, lines_of, handle_summary_counts, findings_export_agree,
}
use certlight.Web.Ai.{AiAssist, AiLibrary, failed, ai_refusal, handle_explain_finding}
use certlight.Web.Ai.Gate.{Released, handle_explain_finding-Released}
use certlight.Tests.Engine.{product, known_store}
use certlight.Tests.License.{toy}

abbrev pub licensing_config : LicensingConfig ℕ ℕ ℕ
licensing_config = record {
  codec = toy;
  show_date = λ at. "2 Jan 2026";
  issuer_pub = 1;
  module_id = "certwatch";
  license_file = "license.key";
  write_error = λ text. none;
  left = λ text. none;
}

abbrev unlicensed : Licensing
unlicensed = record { activation = free_activation ""; file = none }

abbrev typed : String
typed = "  SNTL1-AAA.AA\n"

abbrev licensed : Licensing
licensed = (handle_set_license licensing_config 150 (some typed) unlicensed).0

abbrev pro_reply : Reply
pro_reply = record { code = 200; message = "pro" }

key_accepted :
    handle_set_license licensing_config 150 (some typed) unlicensed ≡ (licensed, pro_reply)
unfolding handle_set_license activate trim_space verify
key_accepted = refl

set_license_restart_example :
    (licensed.activation ≡ activated licensing_config (trim_space typed) 150)
    × ((new_licensing licensing_config licensed.file 150).activation ≡ (
        if licensing_config.license_file == ""
        then activated licensing_config "" 150
        else licensed.activation))
set_license_restart_example =
    set_license_restart licensing_config 150 typed unlicensed licensed pro_reply key_accepted refl

abbrev bad_reply : Reply
bad_reply = (handle_set_license licensing_config 250 (some typed) unlicensed).1

-- The key is over.
key_over :
    handle_set_license licensing_config 250 (some typed) unlicensed
    ≡ ((handle_set_license licensing_config 250 (some typed) unlicensed).0, bad_reply)
key_over = refl

set_license_refused_example :
    (handle_set_license licensing_config 250 (some typed) unlicensed).0 ≡ unlicensed
unfolding handle_set_license activate trim_space verify
set_license_refused_example =
    set_license_refused licensing_config 250 (some typed) unlicensed
      (handle_set_license licensing_config 250 (some typed) unlicensed).0 bad_reply key_over refl

abbrev open_records : List Record
open_records = select (λ r. true) known_store.recs

abbrev shown_summary : Summary
shown_summary = summary_of product (free_activation "") new_scheduler open_records

handle_summary_counts_example :
    (rs : List Record) × (list_open known_store product.id ≡ ok rs)
    × (shown_summary.open_total ≡ length rs)
    × ((name : String) → or_zero (lookup name shown_summary.counts) ≡ occurrences name rs)
unfolding handle_summary list_open select
handle_summary_counts_example =
    handle_summary_counts mem_ops product (free_activation "") new_scheduler known_store
      shown_summary refl

abbrev print_line : Meta → ℕ → Source → Result String String
print_line meta now src = ok (meta.product ++ " " ++ src.fingerprint)

abbrev unnamed : Meta
unnamed = record { product = ""; version = ""; host = "" }

findings_export_agree_example :
    (rs : List Record) × (list_all known_store product.id ≡ ok rs)
    × (shown 9 open_records ≡ map to_json (current 9 rs))
    × ("certwatch f1" ∷ [] ≡ lines_of (print_line (export_meta unnamed product) 9) (current 9 rs))
unfolding handle_findings handle_findings_export list_all select shown exported
findings_export_agree_example =
    findings_export_agree mem_ops product unnamed print_line 9 "hfs" known_store
      (shown 9 open_records) ("certwatch f1" ∷ []) refl refl

abbrev pub library : AiLibrary String String
library = record {
  is_base_url = λ u. true;
  read_file = λ f. ok "k";
  trim_slashes = λ u. u;
  normalize_language = λ l. l;
  new_client = λ u options. u;
  new_packet = λ m language f. ok f.title;
  explain = λ client packet. failed;
  quote = λ s. s;
}

abbrev keyed_ai : AiAssist String
keyed_ai = record { client = "c"; endpoint = "http://ai:8435"; keyed = true; language = "en" }

handle_explain_finding-Released_example :
    (r : Record) × (get known_store "certwatch" "f1" ≡ ok (some r))
    × Released library (some keyed_ai) pro "certwatch" r "RSA key too small"
unfolding handle_explain_finding get lookup ai_refusal trim_space
handle_explain_finding-Released_example =
    handle_explain_finding-Released library mem_ops (some keyed_ai) pro "certwatch" "f1" known_store
      "RSA key too small" refl

-- Without a license, nothing leaves for an endpoint with a key.
nothing_leaves :
    (handle_explain_finding library mem_ops
      (some keyed_ai)
      free
      "certwatch"
      (some "f1")
      known_store).0
    ≡ none
unfolding handle_explain_finding get lookup ai_refusal trim_space
nothing_leaves = refl
