-- ===== src/Cmd/Startup/Again.antt =====
-- A process takes up the targets where the one before it left them (cmd/certlight/main.go).
use certlight.Base.{
  ℕ, ◌≡◌, refl, sym, ◌∙◌, ap, subst, String, Bool, false, ◌==◌, Option, none, some, [], Result, ok,
  err, bind-ok, ok-inv,
}
use certlight.Store.Memory.{has_canonical}
use certlight.Store.Sqlite.{Json, Database, migrated, new_sqlite_store, list_saved_targets}
use certlight.Store.Sqlite.Tables.{DatabaseLaws}
use certlight.Store.Sqlite.Saved.{own, sqlite_targets, sqlite_target_laws, saved-own}
use certlight.Store.Targets.{TargetLaws}
use certlight.Sched.Registry.{Collector, Scheduler, new_scheduler, register, start, target_of}
use certlight.Sched.Registry.Known.{is_present}
use certlight.Web.Licensing.{LicensingConfig}
use certlight.Web.Ai.{AiLibrary}
use certlight.Web.Targets.{Server}
use certlight.Cmd.Channels.{Outside}
use certlight.Cmd.Restart.{IsStable, fresh, restore, Session}
use certlight.Cmd.Restart.Kept.{IsSaved, restore-IsSaved, start-IsSaved}
use certlight.Cmd.Restart.Same.{Session-Saved}
use certlight.Cmd.Startup.{Flags, Process, or_fatal, checked, loaded, start_up, start_up-Started}

checked-inv : {A : Type 0} (r : A × Option String) (a : A) → checked r ≡ ok a → r ≡ (a, none)
checked-inv (b, none) a h = ap (λ x. (x, none)) (ok-inv b a h)
checked-inv (b, some x) a h = cc

or_fatal-inv :
    {A : Type 0} (prefix : String) (r : Result String A) (a : A)
    → or_fatal prefix r ≡ ok a
    → r ≡ ok a
or_fatal-inv prefix (ok b) a h = cc
or_fatal-inv prefix (err x) a h = cc

migrated-inv :
    {D : Type 0} (json : Json) (db : Database D) (r : D × Option String) (d : D)
    → migrated json db r ≡ (d, none)
    → r ≡ (d, none)
migrated-inv json db (b, none) d h = h
migrated-inv json db (b, some x) d h = cc

module _ {D : Type 0} (json : Json) (db : Database D) (laws : DatabaseLaws db) (coll : Collector)
    (stable : IsStable coll) (named : (coll.describe.id == "") ≡ false) where
  abbrev Saved : Scheduler → D → Type 0
  Saved = IsSaved (sqlite_targets json db) (sqlite_target_laws json db laws) coll

  abbrev view : TargetLaws (sqlite_targets json db)
  view = sqlite_target_laws json db laws

  -- What is loaded from a database has the targets that are saved there.
  loaded-IsSaved :
      (s : Scheduler) (d : D) (st : D × Scheduler)
      → Saved s d
      → loaded json db coll (ok d) ≡ ok st
      → (view.saved st.0 coll.describe.id ≡ view.saved d coll.describe.id) × Saved st.1 st.0
  unfolding new_sqlite_store
  loaded-IsSaved s d st saved h =
      let m = coll.describe.id in
      let (d', made, h1) = bind-ok (checked (new_sqlite_store json db d)) _ st h in
      let (empty, fresh_ok, h2) = bind-ok (checked (register coll new_scheduler)) _ st h1 in
      let (raws, listed, h3) =
        bind-ok (or_fatal "load saved targets: " (list_saved_targets json db d' m)) _ st h2 in
      let is : (d', restore m raws empty) ≡ st = ok-inv _ st h3 in
      let created : db.create d ≡ (d', none) =
        migrated-inv json db (db.create d) d' (checked-inv (new_sqlite_store json db d) d' made) in
      let kept : view.saved d' m ≡ view.saved d m =
        saved-own json db laws d' m
        ∙ ap (own m) (rw created at (laws.create-ok d (rw created refl)))
        ∙ sym (saved-own json db laws d m) in
      let begun : fresh coll ≡ empty =
        ap (λ q. q.0) (checked-inv (register coll new_scheduler) empty fresh_ok) in
      subst (λ (x : D × Scheduler). (view.saved x.0 m ≡ view.saved d m) × Saved x.1 x.0) is
        (
          kept,
          subst (λ f. Saved (restore m raws f) d') begun
              (restore-IsSaved (sqlite_targets json db) (sqlite_target_laws json db laws) coll
                stable named s d d' raws kept
                (or_fatal-inv "load saved targets: " (list_saved_targets json db d' m) raws listed)
                saved),
        )

  -- From a database without saved targets of the module, after any requests, starts and restarts in
  -- which no save of a request and no delete fails: the next process that starts on the database has
  -- exactly the targets that the server has, by their canonical forms.
  pub start_up-same :
      {K P T M B PK SK : Type 0} (lib : AiLibrary K P) (out : Outside T M)
      (lic : LicensingConfig B PK SK) (host : String) (flags : Flags) (begun s : Server D)
      (d₀ d : D) (file : Option String) (now : ℕ) (ended : Bool) (p : Process D K T M) (c : String)
      → begun ≡ record { scheduler = fresh coll; targets = some d₀ }
      → own coll.describe.id (laws.targets d₀) ≡ []
      → Session (sqlite_targets json db) (sqlite_target_laws json db laws) coll begun s
      → s.targets ≡ some d
      → start_up json db lib out lic coll host flags (ok d) file now ended ≡ ok p
      → is_present (target_of coll.describe.id c p.server.scheduler)
        ≡ is_present (target_of coll.describe.id c s.scheduler)
  start_up-same lib out lic host flags begun s d₀ d file now ended p c is empty session has h =
      let ops = sqlite_targets json db in
      let saved : Saved s.scheduler d =
        Session-Saved ops view coll stable named begun s d₀ d is
          (saved-own json db laws d₀ coll.describe.id ∙ empty) session has in
      let r = start_up-Started json db lib out lic coll host flags (ok d) file now ended p h in
      let (kept, loaded) = loaded-IsSaved s.scheduler d r.st saved r.was_loaded in
      let running : (start ended r.st.1).0 ≡ p.server.scheduler =
        ap (λ q. q.0) (checked-inv (start ended r.st.1) r.scheduler r.begun)
        ∙ ap (λ x. x.server.scheduler) r.is in
      let now_saved : Saved p.server.scheduler r.st.0 =
        subst (λ x. Saved x r.st.0) running
          (start-IsSaved ops view coll stable named ended r.st.1 r.st.0 loaded) in
      sym (now_saved.same c) ∙ ap (has_canonical c) kept ∙ saved.same c
