-- ===== src/Tests/Routes.antt =====
-- A dashboard over the MemStore with two of its routes.
use certlight.Base.{
  ℕ, ◌≤◌, ◌≡◌, refl, sym, subst, inl, String, Bool, true, false, ◌&&◌, ◌==◌, eq_iff, Option, none,
  some, [], length, Result, ok, arith, insert, lookup,
}
use certlight.License.Tier.{free_limits}
use certlight.License.Activation.{free_activation}
use certlight.Notify.Hfs.{Meta, Source}
use certlight.Store.Memory.{MemStore, mem_ops}
use certlight.Store.Memory.Targets.{mem_targets}
use certlight.Sched.Registry.{list_targets, register, add_target}
use certlight.Web.Targets.{handle_add_target, handle_scan_now}
use certlight.Web.Routes.{
  Route, get_summary, post_targets, method_of, path_of, Request, Http, MuxLaw, Dashboard, serve,
  handle,
}
use certlight.Web.Routes.Safe.{Untouched, serve-Untouched}
use certlight.Web.Routes.Limit.{serve-Within}
use certlight.Tests.Engine.{product, known_store}
use certlight.Tests.Sched.{ready, watched}
use certlight.Tests.Dashboard.{licensing_config, library}

abbrev two_routes : Bool → Bool → Option Route
two_routes true _ = some get_summary
two_routes false true = some post_targets
two_routes false false = none

abbrev http : Http
http = record {
  mux = λ method path.
      two_routes (method == "GET" && path == "/api/summary")
        (method == "POST" && path == "/api/targets");
  status_body = λ b. none;
  target_body = λ b. some b;
  key_body = λ b. none;
  fingerprint_body = λ b. none;
}

abbrev Fits : String → String → Route → Type 0
Fits method path r = (method_of r ≡ method) × (path_of r ≡ path)

chosen :
    (method path : String) (a b : Bool) (r : Route)
    → (a ≡ true → ("GET" ≡ method) × ("/api/summary" ≡ path))
    → (b ≡ true → ("POST" ≡ method) × ("/api/targets" ≡ path))
    → two_routes a b ≡ some r
    → Fits method path r
unfolding method_of path_of
chosen method path true b r get post h =
    let is : get_summary ≡ r = cc h in subst (Fits method path) is (get refl)
chosen method path false true r get post h =
    let is : post_targets ≡ r = cc h in subst (Fits method path) is (post refl)
chosen method path false false r get post h = cc

both : (method path m p : String) → (method == m && path == p) ≡ true → (m ≡ method) × (p ≡ path)
both method path m p h =
    (sym ((eq_iff method m).0 (ground (arith, h))), sym ((eq_iff path p).0 (ground (arith, h))))

http_law : MuxLaw http
http_law method path r h =
    let (is_method, is_path) =
      chosen method path (method == "GET" && path == "/api/summary")
        (method == "POST" && path == "/api/targets") r (both method path "GET" "/api/summary")
        (both method path "POST" "/api/targets") h in
    (inl is_method, inl is_path)

abbrev dashboard : Dashboard MemStore MemStore String
dashboard = record {
  store = known_store;
  server = record { scheduler = ready; targets = some known_store };
  licensing = record { activation = free_activation ""; file = none };
  ai = none;
}

abbrev request : String → String → String → Request
request method path body = record {
  method = method;
  path = path;
  query = λ k. "";
  body = body;
  scans_end = none;
}

abbrev line : Meta → ℕ → Source → Result String String
line meta now src = ok src.fingerprint

abbrev unnamed : Meta
unnamed = record { product = ""; version = ""; host = "" }

serve-Untouched_example : Untouched dashboard (
    serve http mem_ops mem_targets licensing_config library product unnamed line 5
      (request "GET" "/api/summary" "")
      dashboard)
serve-Untouched_example =
    serve-Untouched http mem_ops mem_targets licensing_config library product unnamed line 5
      (request "GET" "/api/summary" "") dashboard http_law refl

serve-Within_example :
    length (
      list_targets "certwatch"
        (serve http mem_ops mem_targets licensing_config library product unnamed line 5
          (request "POST" "/api/targets" "h")
          dashboard).after.server.scheduler)
    ≤ 10
unfolding list_targets lookup register insert
serve-Within_example =
    serve-Within http mem_ops mem_targets licensing_config library product unnamed line 5
      (request "POST" "/api/targets" "h") dashboard (λ h. omega (arith, h)) (omega arith)

-- The target is added.
target_added :
    length (
      list_targets "certwatch"
        (serve http mem_ops mem_targets licensing_config library product unnamed line 5
          (request "POST" "/api/targets" "h")
          dashboard).after.server.scheduler)
    ≡ 1
unfolding serve handle handle_add_target list_targets lookup register add_target insert
target_added = refl

-- The free tier has no scan on demand.
free_scan : (handle_scan_now free_limits "certwatch" none watched).0 ≡ []
unfolding handle_scan_now
free_scan = refl
