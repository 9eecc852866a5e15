-- ===== src/Cmd/Startup/Allowed.antt =====
-- The flags of a paid tier are obeyed or refused, never dropped (cmd/certlight/main.go).
use mathlib.Core.List
use certlight.Base.{
  ℕ, pos, ltb_ℤ, ◌≡◌, refl, sym, ◌∙◌, ap, String, Bool, true, false, ◌&&◌, Option, List, [], ◌∷◌,
  ◌==◌, if◌then◌else◌, Result, ok, err, bind-ok, ok-inv, subst, arith,
}
use certlight.License.Tier.{Limits, allows_channel}
use certlight.License.Activation.{Activation}
use certlight.Store.Sqlite.{Json, Database}
use certlight.Sched.Registry.{Collector, Scheduler}
use certlight.Web.Licensing.{LicensingConfig}
use certlight.Web.Ai.{AiLibrary, AiAssist}
use certlight.Cmd.Channels.{Channel, slack, telegram, Outside, build}
use certlight.Cmd.Startup.{
  Flags, Process, or_usage, slack_channel, telegram_channel, allowed_interval, meta, all_channels,
  activation_at, dispatcher_of, running, start_up, start_up-Started,
}

module _ {T M : Type 0} (flags : Flags) where
  -- The channels that the flags of the paid tiers ask for.
  abbrev pub slack_wanted : List (Channel T M)
  slack_wanted =
      if flags.slack_webhook == ""
      then []
      else slack (record { webhook_url = flags.slack_webhook }) ∷ []

  abbrev pub telegram_wanted : List (Channel T M)
  telegram_wanted =
      if flags.telegram_token == "" && flags.telegram_chat == ""
      then []
      else telegram (record {
        bot_token = flags.telegram_token;
        chat_id = flags.telegram_chat;
        base_url = "";
      })
        ∷ []

  slack_channel-allowed :
      (limits : Limits) (cs : List (Channel T M))
      → slack_channel flags limits ≡ ok cs
      → (cs ≡ slack_wanted)
        × ((flags.slack_webhook == "") ≡ false → allows_channel limits "slack" ≡ true)
  unfolding slack_channel
  slack_channel-allowed limits cs h = ground (arith, h)

  telegram_channel-allowed :
      (limits : Limits) (cs : List (Channel T M))
      → telegram_channel flags limits ≡ ok cs
      → (cs ≡ telegram_wanted)
        × ((flags.telegram_token == "" && flags.telegram_chat == "") ≡ false
            → allows_channel limits "telegram" ≡ true)
  unfolding telegram_channel
  telegram_channel-allowed limits cs h = ground (arith, h)

or_usage-inv : {A : Type 0} (r : Result String A) (a : A) → or_usage r ≡ ok a → r ≡ ok a
or_usage-inv (ok b) a h = cc
or_usage-inv (err x) a h = cc

allowed_interval-allowed :
    (flags : Flags) (limits : Limits)
    → allowed_interval flags limits ≡ ok tt
    → ltb_ℤ (pos 0) flags.interval ≡ true
    → limits.custom_interval ≡ true
unfolding allowed_interval
allowed_interval-allowed flags limits h longer = ground (arith, h, longer)

module _ {D K T M : Type 0} (out : Outside T M) (coll : Collector) (host : String)
    (flags : Flags) where
  -- What is allowed to a process, and that its channels are those that the flags ask for.
  pub record Obeys (p : Process D K T M) : Type 0 where
    pub base : List (Channel T M)
    pub built : build out (meta coll host) flags.channels ≡ ok base
    pub whole : p.channels ≡ List.◌++◌ (List.◌++◌ base (slack_wanted flags)) (telegram_wanted flags)
    pub told : p.dispatcher ≡ dispatcher_of p.channels
    pub slack_allowed :
        (flags.slack_webhook == "") ≡ false → allows_channel p.activation.limits "slack" ≡ true
    pub telegram_allowed :
        (flags.telegram_token == "" && flags.telegram_chat == "") ≡ false
        → allows_channel p.activation.limits "telegram" ≡ true
    pub interval_allowed :
        ltb_ℤ (pos 0) flags.interval ≡ true → p.activation.limits.custom_interval ≡ true

  channels-Obeys :
      (act : Activation) (d : D) (ai : Option (AiAssist K)) (channels : List (Channel T M))
      (scheduler : Scheduler)
      → all_channels out coll host flags act.limits ≡ ok channels
      → allowed_interval flags act.limits ≡ ok tt
      → Obeys (running act d ai channels scheduler)
  channels-Obeys act d ai channels scheduler made in_time =
      let (base, built, h1) =
        bind-ok (or_usage (build out (meta coll host) flags.channels)) _ channels made in
      let (to_slack, slack_ok, h2) = bind-ok (slack_channel flags act.limits) _ channels h1 in
      let (to_telegram, telegram_ok, h3) =
        bind-ok (telegram_channel flags act.limits) _ channels h2 in
      let (is_slack, slack_allowed) = slack_channel-allowed flags act.limits to_slack slack_ok in
      let (is_telegram, telegram_allowed) =
        telegram_channel-allowed flags act.limits to_telegram telegram_ok in
      record {
        base = base;
        built = or_usage-inv (build out (meta coll host) flags.channels) base built;
        whole =
            sym (ok-inv _ channels h3)
            ∙ ap (λ l. List.◌++◌ (List.◌++◌ base l) to_telegram) is_slack
            ∙ ap (λ l. List.◌++◌ (List.◌++◌ base (slack_wanted flags)) l) is_telegram;
        told = refl;
        slack_allowed = slack_allowed;
        telegram_allowed = telegram_allowed;
        interval_allowed = allowed_interval-allowed flags act.limits in_time;
      }

module _ {D K P T M B PK SK : Type 0} (json : Json) (db : Database D) (lib : AiLibrary K P)
    (out : Outside T M) (lic : LicensingConfig B PK SK) (coll : Collector) (host : String)
    (flags : Flags) where
  -- A process that starts has exactly the channels that its flags ask for, in their order, and its
  -- activation allows each of the paid ones and the interval.
  pub start_up-Obeys :
      (opened : Result String D) (file : Option String) (now : ℕ) (ended : Bool)
      (p : Process D K T M)
      → start_up json db lib out lic coll host flags opened file now ended ≡ ok p
      → Obeys out coll host flags p
  unfolding start_up
  start_up-Obeys opened file now ended p h =
      let r = start_up-Started json db lib out lic coll host flags opened file now ended p h in
      subst (Obeys out coll host flags) r.is (
        channels-Obeys out coll host flags (activation_at lic coll file now) r.st.0 r.ai r.channels
          r.scheduler r.made r.in_time)
