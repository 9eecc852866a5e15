-- ===== src/Cmd/Startup.antt =====
-- The start of the process (cmd/certlight/main.go): the store, the scheduler with its saved targets,
-- the activation, AI Assist, the channels and the interval, up to the start of the scheduler. What
-- the file system and the build give are arguments; flag parsing, the messages that do not end the
-- process, the HTTP server and its shutdown are left out.
pub mod Allowed
pub mod Again
use Prim.Native.String.{◌++◌}
use mathlib.Core.List
use certlight.Base.{
  ℕ, ℤ, pos, ltb_ℤ, String, Bool, true, false, ◌&&◌, ◌||◌, not, Option, none, some, List, [], ◌∷◌,
  ◌==◌, if◌then◌else◌, Result, ok, err, ◌>>=◌, ◌>>◌, bind-ok, then-ok, ok-inv, ◌≡◌,
}
use certlight.Core.Severity.{severity_of_string}
use certlight.License.Tier.{Limits, allows_channel}
use certlight.License.Activation.{Activation}
use certlight.Store.Sqlite.{Json, Database, new_sqlite_store, list_saved_targets}
use certlight.Notify.Hfs.{Meta}
use certlight.Notify.Channels.{SlackChannel, TelegramChannel}
use certlight.Notify.Dispatcher
use certlight.Notify.Dispatcher.{Dispatcher, new_dispatcher}
use certlight.Sched.Registry.{Collector, Scheduler, new_scheduler, register, start}
use certlight.Web.Licensing.{LicensingConfig, new_activation}
use certlight.Web.Ai.{AiLibrary, AiConfig, AiAssist, new_ai_assist}
use certlight.Web.Targets.{Server}
use certlight.Cmd.Channels.{ChannelFlags, Channel, slack, telegram, Outside, build}
use certlight.Cmd.Restart.{restore}

-- The flags of `main` beside the listen address and the paths.
pub record Flags : Type 0 where
  pub channels : ChannelFlags
  pub slack_webhook : String
  pub telegram_token : String
  pub telegram_chat : String
  pub interval : ℤ
  pub ai : AiConfig

-- `os.Exit` and what is written before it.
pub record Exit : Type 0 where
  pub code : ℕ
  pub message : String

-- What serves, once `main` has started everything. `dispatcher` is `none` without channels.
pub record Process (D K T M : Type 0) : Type 0 where
  pub server : Server D
  pub activation : Activation
  pub ai : Option (AiAssist K)
  pub channels : List (Channel T M)
  pub dispatcher : Option (Dispatcher (Channel T M))

-- `fatal`
abbrev pub fatal : {A : Type 0} → String → Result Exit A
fatal message = err (record { code = 1; message = "certlight: " ++ message })

abbrev pub or_fatal : {A : Type 0} → String → Result String A → Result Exit A
or_fatal prefix (ok a) = ok a
or_fatal prefix (err x) = fatal (prefix ++ x)

-- An error of the configuration exits with 2.
abbrev pub or_usage : {A : Type 0} → Result String A → Result Exit A
or_usage (ok a) = ok a
or_usage (err x) = err (record { code = 2; message = "certlight: " ++ x })

-- A state and its error.
abbrev pub checked : {A : Type 0} → A × Option String → Result Exit A
checked (a, none) = ok a
checked (a, some x) = fatal x

-- `notify.Config{}`
abbrev pub no_config : Dispatcher.Config
no_config = record {
  flush_interval = pos 0;
  max_batch = pos 0;
  min_severity = severity_of_string "";
  retries = pos 0;
  retry_delay = pos 0;
}

-- `if len(channels) > 0`
abbrev pub dispatcher_of : {C : Type 0} → List C → Option (Dispatcher C)
dispatcher_of [] = none
dispatcher_of (c ∷ cs) = some (new_dispatcher no_config (c ∷ cs))

module _ {T M : Type 0} (flags : Flags) where
  unfoldable pub slack_channel : Limits → Result Exit (List (Channel T M))
  slack_channel limits =
      if flags.slack_webhook == ""
      then ok []
      else if not (allows_channel limits "slack")
      then fatal "-slack-webhook requires a Pro or Team license"
      else ok (slack (record { webhook_url = flags.slack_webhook }) ∷ [])

  unfoldable pub telegram_channel : Limits → Result Exit (List (Channel T M))
  telegram_channel limits =
      if flags.telegram_token == "" && flags.telegram_chat == ""
      then ok []
      else if not (allows_channel limits "telegram")
      then fatal "-telegram-* requires a Pro or Team license"
      else if flags.telegram_token == "" || flags.telegram_chat == ""
      then fatal "telegram needs both -telegram-token and -telegram-chat"
      else ok (
          telegram (record {
            bot_token = flags.telegram_token;
            chat_id = flags.telegram_chat;
            base_url = "";
          })
          ∷ [])

unfoldable pub allowed_interval : Flags → Limits → Result Exit Unit
allowed_interval flags limits =
    if ltb_ℤ (pos 0) flags.interval && not limits.custom_interval
    then fatal "-interval requires a Pro or Team license"
    else ok tt

abbrev pub meta : Collector → String → Meta
meta coll host = record { product = coll.describe.id; version = coll.describe.version; host = host }

module _ {D : Type 0} (json : Json) (db : Database D) (coll : Collector) where
  -- The saved inputs, in a scheduler that has the module: and the store.
  abbrev pub loaded : Result String D → Result Exit (D × Scheduler)
  loaded opened = do
    d ← or_fatal "open database: " opened
    st ← checked (new_sqlite_store json db d)
    empty ← checked (register coll new_scheduler)
    raws ← or_fatal "load saved targets: " (list_saved_targets json db st coll.describe.id)
    ok (st, restore coll.describe.id raws empty)

module _ {T M : Type 0} (out : Outside T M) (coll : Collector) (host : String) where
  -- `build`, and the channels of a paid tier.
  abbrev pub all_channels : Flags → Limits → Result Exit (List (Channel T M))
  all_channels flags limits = do
    base ← or_usage (build out (meta coll host) flags.channels)
    to_slack ← slack_channel flags limits
    to_telegram ← telegram_channel flags limits
    ok (List.◌++◌ (List.◌++◌ base to_slack) to_telegram)

abbrev pub running :
    {D K T M : Type 0}
    → Activation
    → D
    → Option (AiAssist K)
    → List (Channel T M)
    → Scheduler
    → Process D K T M
running act d ai channels scheduler = record {
  server = record { scheduler = scheduler; targets = some d };
  activation = act;
  ai = ai;
  channels = channels;
  dispatcher = dispatcher_of channels;
}

-- The activation of `NewServer`.
abbrev pub activation_at :
    {B PK SK : Type 0} → LicensingConfig B PK SK → Collector → Option String → ℕ → Activation
activation_at lic coll file now =
    new_activation (record lic { module_id = coll.describe.id }) file now

module _ {D K P T M B PK SK : Type 0} (json : Json) (db : Database D) (lib : AiLibrary K P)
    (out : Outside T M) (lic : LicensingConfig B PK SK) (coll : Collector) (host : String) where
  -- `opened` is the database, `file` the license file and `ended` tells whether a signal has ended
  -- the context already.
  unfoldable pub start_up :
      Flags → Result String D → Option String → ℕ → Bool → Result Exit (Process D K T M)
  unfolding slack_channel telegram_channel allowed_interval restore new_activation
  start_up flags opened file now ended = do
    st ← loaded json db coll opened
    ai ← or_usage (new_ai_assist lib flags.ai)
    channels ← all_channels out coll host flags (activation_at lic coll file now).limits
    allowed_interval flags (activation_at lic coll file now).limits
    scheduler ← checked (start ended st.1)
    ok (running (activation_at lic coll file now) st.0 ai channels scheduler)

  -- What a start without error went through.
  pub record Started (flags : Flags) (opened : Result String D) (file : Option String) (now : ℕ)
      (ended : Bool) (p : Process D K T M) : Type 0 where
    pub st : D × Scheduler
    pub was_loaded : loaded json db coll opened ≡ ok st
    pub ai : Option (AiAssist K)
    pub channels : List (Channel T M)
    pub made :
        all_channels out coll host flags (activation_at lic coll file now).limits ≡ ok channels
    pub in_time : allowed_interval flags (activation_at lic coll file now).limits ≡ ok tt
    pub scheduler : Scheduler
    pub begun : checked (start ended st.1) ≡ ok scheduler
    pub is : running (activation_at lic coll file now) st.0 ai channels scheduler ≡ p

  pub start_up-Started :
      (flags : Flags) (opened : Result String D) (file : Option String) (now : ℕ) (ended : Bool)
      (p : Process D K T M)
      → start_up flags opened file now ended ≡ ok p
      → Started flags opened file now ended p
  unfolding start_up
  start_up-Started flags opened file now ended p h =
      let limits = (activation_at lic coll file now).limits in
      let (st, was_loaded, h1) = bind-ok (loaded json db coll opened) _ p h in
      let (ai, _, h2) = bind-ok (or_usage (new_ai_assist lib flags.ai)) _ p h1 in
      let (channels, made, h3) = bind-ok (all_channels out coll host flags limits) _ p h2 in
      let (in_time, h4) = then-ok (allowed_interval flags limits) _ p h3 in
      let (scheduler, begun, h5) = bind-ok (checked (start ended st.1)) _ p h4 in
      record {
        st = st;
        was_loaded = was_loaded;
        ai = ai;
        channels = channels;
        made = made;
        in_time = in_time;
        scheduler = scheduler;
        begun = begun;
        is = ok-inv _ p h5;
      }
