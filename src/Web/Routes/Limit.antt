-- ===== src/Web/Routes/Limit.antt =====
-- The limit of the targets, whatever the request (web/server.go).
use certlight.Base.{
  ℕ, ◌≤◌, ◌≢◌, inl, inr, Bool-cases, Option-cases, String, ◌==◌, Option, none, some, length, Result,
  arith,
}
use certlight.Core.Collector.{ModuleInfo}
use certlight.License.Tier.{Limits}
use certlight.Store.Records.{StoreOps}
use certlight.Store.Targets.{TargetOps}
use certlight.Notify.Hfs.{Meta, Source}
use certlight.Sched.Registry.{remove_target, list_targets}
use certlight.Sched.Registry.Count.{remove_target-count}
use certlight.Web.Status.{Reply}
use certlight.Web.Licensing.{LicensingConfig}
use certlight.Web.Ai.{AiLibrary}
use certlight.Web.Targets.{Server, handle_remove_target, forget, forgotten}
use certlight.Web.Limit.{handle_add_target_limit}
use certlight.Web.Routes.{
  Route, get_summary, get_findings, get_export, post_status, get_targets, post_targets,
  delete_targets, post_scan, get_license, post_license, get_ai, post_explain, get_static, Request,
  Http, Dashboard, Served, removed, handle, serve,
}

module _ {S T K P B PK SK : Type 0} (http : Http) (store : StoreOps S) (ops : TargetOps T)
    (lic : LicensingConfig B PK SK) (lib : AiLibrary K P) (mod_info : ModuleInfo) (meta : Meta)
    (line : Meta → ℕ → Source → Result String String) where
  abbrev count_in : Server T → ℕ
  count_in s = length (list_targets mod_info.id s.scheduler)

  abbrev after_removal : String → Dashboard S T K → Option (Server T × Reply) → Served S T K P
  after_removal = removed http store ops lic lib mod_info meta line

  forgotten-count :
      (canonical : String) (d : Dashboard S T K) (r : Option (T × Option String))
      → let gone = remove_target mod_info.id canonical d.server.scheduler in
        count_in (after_removal canonical d (forgotten ops gone r)).after.server ≤ count_in d.server
  forgotten-count canonical d none = remove_target-count mod_info.id canonical d.server.scheduler
  forgotten-count canonical d (some (t, x)) =
      remove_target-count mod_info.id canonical d.server.scheduler

  forget-count :
      (canonical : String) (d : Dashboard S T K) (o : Option T)
      → let gone = remove_target mod_info.id canonical d.server.scheduler in
        count_in (after_removal canonical d (forget ops mod_info.id canonical gone o)).after.server
        ≤ count_in d.server
  forget-count canonical d none = remove_target-count mod_info.id canonical d.server.scheduler
  forget-count canonical d (some t) =
      forgotten-count canonical d (ops.delete mod_info.id canonical t)

  removal-count :
      (canonical : String) (d : Dashboard S T K)
      → count_in
          (after_removal canonical d
            (handle_remove_target ops mod_info.id canonical d.server)).after.server
        ≤ count_in d.server
  unfolding handle_remove_target
  removal-count canonical d = elim (Bool-cases (canonical == "")) [
    | inl empty ↦ rw (empty, handle_remove_target) (omega arith)
    | inr given ↦ rw (given, handle_remove_target) (forget-count canonical d d.server.targets)
  ]

  -- The targets are within the limit of the tier in force.
  abbrev pub Within : Limits → Server T → Type 0
  Within limits s = count_in s ≤ limits.max_targets

  handle-Within :
      (r : Route) (now : ℕ) (q : Request) (d : Dashboard S T K)
      → d.licensing.activation.limits.max_targets ≢ 0
      → Within d.licensing.activation.limits d.server
      → Within d.licensing.activation.limits
          (handle http store ops lic lib mod_info meta line r now q d).after.server
  unfolding handle
  handle-Within get_summary now q d limited h = h
  handle-Within get_findings now q d limited h = h
  handle-Within get_export now q d limited h = h
  handle-Within post_status now q d limited h = h
  handle-Within get_targets now q d limited h = h
  handle-Within post_targets now q d limited h =
      handle_add_target_limit ops d.licensing.activation.limits mod_info.id
        (http.target_body q.body) d.server limited h
  handle-Within delete_targets now q d limited h =
      omega (arith, removal-count (q.query "canonical") d, h)
  handle-Within post_scan now q d limited h = h
  handle-Within get_license now q d limited h = h
  handle-Within post_license now q d limited h = h
  handle-Within get_ai now q d limited h = h
  handle-Within post_explain now q d limited h = h
  handle-Within get_static now q d limited h = h

  -- Where the tier in force has a limit and the targets are within it, they are so after a request,
  -- whatever the request.
  pub serve-Within :
      (now : ℕ) (q : Request) (d : Dashboard S T K)
      → d.licensing.activation.limits.max_targets ≢ 0
      → Within d.licensing.activation.limits d.server
      → Within d.licensing.activation.limits
          (serve http store ops lic lib mod_info meta line now q d).after.server
  unfolding serve
  serve-Within now q d limited h = elim (Option-cases (http.mux q.method q.path)) [
    | inl by_mux ↦ rw (by_mux, serve) h
    | inr (r, chosen) ↦ rw (chosen, serve) (handle-Within r now q d limited h)
  ]
