-- ===== src/Web/Routes.antt =====
-- The server's handlers behind their routes (web/server.go, web/ai.go). The state of the dashboard is
-- the store, the scheduler with its saved targets, the license and AI Assist. `http.ServeMux`, the
-- decoding of a body and the file server are parameters.
pub mod Safe
pub mod Limit
use certlight.Base.{
  ℕ, ◌≡◌, ◌⊎◌, refl, ap, String, Bool, Option, none, some, List, [], Result, ok, err,
}
use certlight.Core.Collector.{ModuleInfo}
use certlight.Store.Records.{StoreOps}
use certlight.Store.Targets.{TargetOps}
use certlight.Notify.Hfs.{Meta, Source}
use certlight.Sched.Registry.{Scheduler, remove_target}
use certlight.Sched.Loop.{Job}
use certlight.Web.Status.{Reply, handle_finding_status}
use certlight.Web.Targets.{Server, handle_add_target, handle_remove_target, handle_scan_now}
use certlight.Web.Licensing.{Licensing, LicensingConfig, handle_get_license, handle_set_license}
use certlight.Web.Listing.{
  Answer, Summary, FindingJson, handle_summary, handle_findings, handle_findings_export,
  handle_list_targets,
}
use certlight.Web.Ai.{AiLibrary, AiAssist, ExplainReply, handle_ai_status, handle_explain_finding}

-- The patterns of `Handler` and `registerAI`, in their order.
pub data Route : Type 0 where
  get_summary get_findings get_export : Route
  post_status get_targets post_targets delete_targets post_scan get_license post_license : Route
  get_ai post_explain get_static : Route

unfoldable pub method_of : Route → String
method_of get_summary = "GET"
method_of get_findings = "GET"
method_of get_export = "GET"
method_of post_status = "POST"
method_of get_targets = "GET"
method_of post_targets = "POST"
method_of delete_targets = "DELETE"
method_of post_scan = "POST"
method_of get_license = "GET"
method_of post_license = "POST"
method_of get_ai = "GET"
method_of post_explain = "POST"
method_of get_static = "GET"

unfoldable pub path_of : Route → String
path_of get_summary = "/api/summary"
path_of get_findings = "/api/findings"
path_of get_export = "/api/findings/export"
path_of post_status = "/api/findings/status"
path_of get_targets = "/api/targets"
path_of post_targets = "/api/targets"
path_of delete_targets = "/api/targets"
path_of post_scan = "/api/scan"
path_of get_license = "/api/license"
path_of post_license = "/api/license"
path_of get_ai = "/api/ai"
path_of post_explain = "/api/findings/explain"
path_of get_static = "/"

-- `query` is `r.URL.Query().Get`, and `scans_end` the error that the request's context has once the
-- scans of a scan on demand have ended.
pub record Request : Type 0 where
  pub method : String
  pub path : String
  pub query : String → String
  pub body : String
  pub scans_end : Option String

-- `json.NewDecoder(r.Body).Decode` into what each handler reads. `mux` gives the pattern that is
-- served, `none` where the mux answers itself.
pub record Http : Type 0 where
  pub mux : String → String → Option Route
  pub status_body : String → Option (String × String)
  pub target_body : String → Option String
  pub key_body : String → Option String
  pub fingerprint_body : String → Option String

-- What ServeMux documents of a pattern with a method: it matches that method, and GET also HEAD, and
-- its path, where "/" matches every path.
abbrev pub MuxLaw : Http → Type 0
MuxLaw http =
    (method path : String) (r : Route)
    → http.mux method path ≡ some r
    → ((method_of r ≡ method) ⊎ ((method_of r ≡ "GET") × (method ≡ "HEAD")))
      × ((path_of r ≡ path) ⊎ (r ≡ get_static))

pub record Dashboard (S T K : Type 0) : Type 0 where
  pub store : S
  pub server : Server T
  pub licensing : Licensing
  pub ai : Option (AiAssist K)

pub data Response : Type 0 where
  summary : Answer Summary → Response
  findings : Answer (List FindingJson) → Response
  export : Answer (List String) → Response
  targets : List (String × String) → Response
  license : String × String × Option (String × ℕ) → Response
  ai_status : Bool × String × String × Bool → Response
  explanation : ExplainReply → Response
  replied : Reply → Response
  file : String → Response
  by_mux : Response
  crashed : Response  -- a panic, which net/http catches

-- A request that was served: the state after it, its response, the packet that it hands to the AI
-- client, and the scans that it starts beside those of `AddTarget`.
pub record Served (S T K P : Type 0) : Type 0 where
  pub after : Dashboard S T K
  pub response : Response
  pub packet : Option P
  pub scans : List Job

module _ {S T K P B PK SK : Type 0} (http : Http) (store : StoreOps S) (ops : TargetOps T)
    (lic : LicensingConfig B PK SK) (lib : AiLibrary K P) (mod_info : ModuleInfo) (meta : Meta)
    (line : Meta → ℕ → Source → Result String String) where
  abbrev pub only : Response → Dashboard S T K → Served S T K P
  only response d = record { after = d; response = response; packet = none; scans = [] }

  -- The handler panics after `RemoveTarget` where `DeleteTarget` does.
  abbrev pub removed : String → Dashboard S T K → Option (Server T × Reply) → Served S T K P
  removed canonical d (some (server, reply)) = only (replied reply) (record d { server = server })
  removed canonical d none = only crashed (record d {
    server = record d.server { scheduler = remove_target mod_info.id canonical d.server.scheduler };
  })

  unfoldable pub handle : Route → ℕ → Request → Dashboard S T K → Served S T K P
  unfolding remove_target
  handle get_summary now q d =
      only
        (summary (handle_summary store mod_info d.licensing.activation d.server.scheduler d.store))
        d
  handle get_findings now q d = only (findings (handle_findings store mod_info now d.store)) d
  handle get_export now q d =
      only (export (handle_findings_export store mod_info meta line now (q.query "format") d.store))
        d
  handle post_status now q d =
      let done = handle_finding_status store mod_info.id (http.status_body q.body) d.store in
      only (replied done.1) (record d { store = done.0 })
  handle get_targets now q d = only (targets (handle_list_targets mod_info d.server.scheduler)) d
  handle post_targets now q d =
      let done =
        handle_add_target ops d.licensing.activation.limits mod_info.id (http.target_body q.body)
          d.server in
      only (replied done.1) (record d { server = done.0 })
  handle delete_targets now q d =
      removed (q.query "canonical") d
        (handle_remove_target ops mod_info.id (q.query "canonical") d.server)
  handle post_scan now q d =
      let done =
        handle_scan_now d.licensing.activation.limits mod_info.id q.scans_end d.server.scheduler in
      record { after = d; response = replied done.1; packet = none; scans = done.0 }
  handle get_license now q d = only (license (handle_get_license lic d.licensing)) d
  handle post_license now q d =
      let done = handle_set_license lic now (http.key_body q.body) d.licensing in
      only (replied done.1) (record d { licensing = done.0 })
  handle get_ai now q d = only (ai_status (handle_ai_status lib d.ai d.licensing.activation.tier)) d
  handle post_explain now q d =
      let done =
        handle_explain_finding lib store d.ai d.licensing.activation.tier mod_info.id
          (http.fingerprint_body q.body) d.store in
      record { after = d; response = explanation done.1; packet = done.0; scans = [] }
  handle get_static now q d = only (file q.path) d

  abbrev pub routed : Option Route → ℕ → Request → Dashboard S T K → Served S T K P
  routed none now q d = only by_mux d
  routed (some r) now q d = handle r now q d

  -- A request to the server's `http.Handler`.
  unfoldable pub serve : ℕ → Request → Dashboard S T K → Served S T K P
  unfolding handle
  serve now q d = routed (http.mux q.method q.path) now q d
