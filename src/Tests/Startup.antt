-- ===== src/Tests/Startup.antt =====
-- CertLight with a license for all channels, over a database that is two lists: its start, and the
-- start after a target was added, the first one, and a restart.
use certlight.Base.{
  ◌≡◌, refl, String, true, false, none, some, List, [], ◌∷◌, pos, Result, ok, err, arith, lookup,
  insert,
}
use certlight.License.Words.{trim_space}
use certlight.License.Tier.{limits_for, can_add_target, allows_channel}
use certlight.License.Key.{verify}
use certlight.License.Activation.{Activation, activate}
use certlight.Store.Sqlite.{save_target, scan_rows, new_sqlite_store, list_saved_targets}
use certlight.Store.Sqlite.Tables.{where_row, is_saved, last}
use certlight.Store.Sqlite.Saved.{own, sqlite_targets, sqlite_target_laws}
use certlight.Sched.Registry.{Collector, register, add_target, start, target_of, list_targets}
use certlight.Sched.Registry.Known.{is_present}
use certlight.Web.Ai.{new_ai_assist}
use certlight.Web.Licensing.{new_activation}
use certlight.Web.Targets.{Server, handle_add_target}
use certlight.Web.Status.{Reply}
use certlight.Collector.Connection.{validate_target}
use certlight.Cmd.Channels.{Channel, build}
use certlight.Cmd.Restart.{Session, opened, adds, starts, fresh, restore}
use certlight.Cmd.Restart.Stable.{cert_light, cert_light-IsStable}
use certlight.Cmd.Startup.{
  Flags, Exit, Process, running, activation_at, all_channels, start_up, slack_channel,
  telegram_channel, allowed_interval,
}
use certlight.Cmd.Startup.Allowed.{Obeys, start_up-Obeys}
use certlight.Cmd.Startup.Again.{start_up-same}
use certlight.Tests.Collector.{lib}
use certlight.Tests.Channels.{outside, flags}
use certlight.Tests.Dashboard.{licensing_config, library}
use certlight.Tests.License.{key}
use certlight.Tests.Sqlite.{Tables, tables, tables_laws, one_text, empty}

abbrev product : Collector
product = cert_light lib

abbrev all_flags : Flags
all_flags = record {
  channels = flags;
  slack_webhook = "https://slack/x";
  telegram_token = "t";
  telegram_chat = "c";
  interval = pos 3600000000000;
  ai = record { url = ""; key_file = ""; language = "en"; no_thinking = false };
}

abbrev channels_of : Result Exit (List (Channel String String)) → List (Channel String String)
channels_of (ok cs) = cs
channels_of (err x) = []

abbrev pro_activation : Activation
pro_activation = activation_at licensing_config product (some key) 150

abbrev all_of_them : List (Channel String String)
all_of_them = channels_of (all_channels outside product "scanner" all_flags pro_activation.limits)

abbrev process : Process Tables String String String
process = running pro_activation empty none all_of_them (start false (fresh product)).0

started :
    start_up one_text tables library outside licensing_config product "scanner" all_flags
      (ok empty)
      (some key)
      150
      false
    ≡ ok process
unfolding start_up new_sqlite_store register list_saved_targets restore new_ai_assist trim_space
    new_activation activate verify build slack_channel telegram_channel allowed_interval
    allows_channel start scan_rows where_row limits_for insert validate_target
started = refl

start_up-Obeys_example : Obeys outside product "scanner" all_flags process
start_up-Obeys_example =
    start_up-Obeys one_text tables library outside licensing_config product "scanner" all_flags
      (ok empty) (some key) 150 false process started

abbrev first : Server Tables
first = record { scheduler = fresh product; targets = some empty }

abbrev serving : Server Tables
serving = record first { scheduler = (start false first.scheduler).0 }

-- The server when the host was added.
abbrev watching : Server Tables
watching =
    (handle_add_target (sqlite_targets one_text tables) pro_activation.limits "certwatch" (some "h")
      serving).0

abbrev saved_tables : Tables
saved_tables = record empty {
  targets = record { owner = "certwatch"; raw = "h"; canonical = "h:443" } ∷ [];
}

abbrev success : Reply
success = record { code = 200; message = "h:443" }

added :
    handle_add_target
      (sqlite_targets one_text tables)
      pro_activation.limits
      "certwatch"
      (some "h")
      serving
    ≡ (watching, success)
unfolding handle_add_target new_activation activate verify trim_space limits_for can_add_target
    list_targets register lookup insert start add_target validate_target is_saved last save_target
added = refl

stored : watching.targets ≡ some saved_tables
unfolding handle_add_target new_activation activate verify trim_space limits_for can_add_target
    list_targets register lookup insert start add_target validate_target is_saved last save_target
stored = refl

used :
    Session
      (sqlite_targets one_text tables)
      (sqlite_target_laws one_text tables tables_laws)
      product
      first
      watching
used = adds (starts opened false) pro_activation.limits (some "h") added (λ h. omega (arith, h))

abbrev next_process : Process Tables String String String
next_process =
    running pro_activation saved_tables none all_of_them
      (start false (restore "certwatch" ("h" ∷ []) (fresh product))).0

restarted :
    start_up one_text tables library outside licensing_config product "scanner" all_flags
      (ok saved_tables)
      (some key)
      150
      false
    ≡ ok next_process
unfolding start_up new_sqlite_store register list_saved_targets restore new_ai_assist trim_space
    new_activation activate verify build slack_channel telegram_channel allowed_interval
    allows_channel start scan_rows where_row limits_for insert validate_target
restarted = refl

start_up-same_example :
    is_present (target_of "certwatch" "h:443" next_process.server.scheduler)
    ≡ is_present (target_of "certwatch" "h:443" watching.scheduler)
unfolding own
start_up-same_example =
    start_up-same one_text tables tables_laws product (cert_light-IsStable lib) refl library outside
      licensing_config "scanner" all_flags first watching empty saved_tables (some key) 150 false
      next_process "h:443" refl refl used stored restarted

-- The target is there again.
restored : is_present (target_of "certwatch" "h:443" next_process.server.scheduler) ≡ true
unfolding restore add_target register validate_target lookup insert start target_of
restored = refl
