-- ===== src/Web/Routes/Safe.antt =====
-- What a request may change (web/server.go, web/ai.go): nothing where its method is GET or HEAD, and
-- never the limit of the targets.
use certlight.Base.{
  ℕ, ◌≡◌, refl, inl, inr, Option-cases, String, Bool, true, ◌||◌, ◌==◌, none, [], Result,
}
use certlight.Core.Collector.{ModuleInfo}
use certlight.Store.Records.{StoreOps}
use certlight.Store.Targets.{TargetOps}
use certlight.Notify.Hfs.{Meta, Source}
use certlight.Web.Licensing.{LicensingConfig}
use certlight.Web.Ai.{AiLibrary}
use certlight.Web.Routes.{
  Route, get_summary, get_findings, get_export, post_status, get_targets, post_targets,
  delete_targets, post_scan, get_license, post_license, get_ai, post_explain, get_static, method_of,
  Request, Http, MuxLaw, Dashboard, Served, handle, serve,
}

abbrev pub is_safe : String → Bool
is_safe method = method == "GET" || method == "HEAD"

-- Nothing is changed, started or sent.
abbrev pub Untouched : {S T K P : Type 0} → Dashboard S T K → Served S T K P → Type 0
Untouched d r = (r.after ≡ d) × (r.packet ≡ none) × (r.scans ≡ [])

module _ {S T K P B PK SK : Type 0} (http : Http) (store : StoreOps S) (ops : TargetOps T)
    (lic : LicensingConfig B PK SK) (lib : AiLibrary K P) (mod_info : ModuleInfo) (meta : Meta)
    (line : Meta → ℕ → Source → Result String String) where
  handle-Untouched :
      (r : Route) (now : ℕ) (q : Request) (d : Dashboard S T K)
      → is_safe (method_of r) ≡ true
      → Untouched d (handle http store ops lic lib mod_info meta line r now q d)
  unfolding handle method_of
  handle-Untouched get_summary now q d h = (refl, refl, refl)
  handle-Untouched get_findings now q d h = (refl, refl, refl)
  handle-Untouched get_export now q d h = (refl, refl, refl)
  handle-Untouched post_status now q d h = cc
  handle-Untouched get_targets now q d h = (refl, refl, refl)
  handle-Untouched post_targets now q d h = cc
  handle-Untouched delete_targets now q d h = cc
  handle-Untouched post_scan now q d h = cc
  handle-Untouched get_license now q d h = (refl, refl, refl)
  handle-Untouched post_license now q d h = cc
  handle-Untouched get_ai now q d h = (refl, refl, refl)
  handle-Untouched post_explain now q d h = cc
  handle-Untouched get_static now q d h = (refl, refl, refl)

  -- A request whose method is GET or HEAD changes nothing on the dashboard, starts no scan, and
  -- sends nothing to the AI client.
  pub serve-Untouched :
      (now : ℕ) (q : Request) (d : Dashboard S T K)
      → MuxLaw http
      → is_safe q.method ≡ true
      → Untouched d (serve http store ops lic lib mod_info meta line now q d)
  unfolding serve
  serve-Untouched now q d law safe = elim (Option-cases (http.mux q.method q.path)) [
    | inl by_mux ↦ rw (by_mux, serve) (refl, refl, refl)
    | inr (r, chosen) ↦
        rw (chosen, serve)
          (handle-Untouched r now q d (elim (law q.method q.path r chosen).0 [
            | inl same ↦ rw same safe
            | inr (is, _) ↦ rw is refl
          ]))
  ]
