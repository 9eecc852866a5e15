-- ===== src/Web/Targets.antt =====
-- Adding and removing targets, and the scan on demand (web/server.go). A reply is its HTTP status,
-- 200 for success, and its message. `Targets` is any store of targets.
use certlight.Base.{
  String, not, Option, none, some, List, [], length, ◌==◌, if◌then◌else◌, Result, ok, err,
}
use certlight.Core.Collector.{Target}
use certlight.License.Tier.{Limits, can_add_target}
use certlight.Store.Targets.{TargetOps}
use certlight.Sched.Registry.{Scheduler, add_target, remove_target, list_targets}
use certlight.Sched.Loop.{Job, scan_now}
use certlight.Web.Status.{Reply}

-- `targets` is `none` where Targets is nil.
pub record Server (T : Type 0) : Type 0 where
  pub scheduler : Scheduler
  pub targets : Option T

-- `ended` is the error of the request's context when the scans have ended. The scans that are started
-- are told with the reply.
abbrev pub scans_reply : Option String → Result String (List Job) → List Job × Reply
scans_reply ended (err x) = ([], record { code = 500; message = x })
scans_reply none (ok jobs) = (jobs, record { code = 200; message = "true" })
scans_reply (some x) (ok jobs) = (jobs, record { code = 500; message = x })

unfoldable pub handle_scan_now : Limits → String → Option String → Scheduler → List Job × Reply
unfolding scan_now
handle_scan_now limits m ended s = if limits.scan_now then scans_reply ended (scan_now m s) else (
  [],
  record {
    code = 402;
    message =
        "on-demand scans are a Pro feature — scheduled scans continue as normal. Pro and Team: https://whop.com/nizar-tuanku/certlight-tls-monitor?utm_source=app";
  },
)

module _ {T : Type 0} (ops : TargetOps T) where
  abbrev pub persisted : String → Scheduler → T × Option String → Server T × Reply
  persisted canonical sched (d, none) =
      (record { scheduler = sched; targets = some d }, record { code = 200; message = canonical })
  persisted canonical sched (d, some x) = (
    record { scheduler = sched; targets = some d },
    record { code = 500; message = "target added but could not be persisted" },
  )

  -- What follows an `AddTarget` without error.
  abbrev pub persist_target : String → Scheduler → Target → Option T → Server T × Reply
  persist_target m sched t none =
      (record { scheduler = sched; targets = none }, record { code = 200; message = t.canonical })
  persist_target m sched t (some d) = persisted t.canonical sched (ops.save m t.raw t.canonical d)

  abbrev pub added_reply : String → Server T → Scheduler × Result String Target → Server T × Reply
  added_reply m s (sched, err x) =
      (record s { scheduler = sched }, record { code = 400; message = x })
  added_reply m s (sched, ok t) = persist_target m sched t s.targets

  -- `body` is the target of the request, `none` where it is no JSON.
  unfoldable pub handle_add_target : Limits → String → Option String → Server T → Server T × Reply
  unfolding add_target can_add_target list_targets
  handle_add_target limits m none s = (s, record { code = 400; message = "invalid JSON" })
  handle_add_target limits m (some raw) s =
      if not (can_add_target limits (length (list_targets m s.scheduler)))
      then (
        s,
        record {
          code = 402;
          message =
              "target limit reached for your tier — Pro and Team: https://whop.com/nizar-tuanku/certlight-tls-monitor?utm_source=app";
        },
      )
      else added_reply m s (add_target m raw s.scheduler)

  -- The error of `DeleteTarget` is dropped, and `none` is its panic.
  abbrev pub forgotten : Scheduler → Option (T × Option String) → Option (Server T × Reply)
  forgotten sched none = none
  forgotten sched (some (d, x)) =
      some (record { scheduler = sched; targets = some d }, record { code = 200; message = "true" })

  abbrev pub forget : String → String → Scheduler → Option T → Option (Server T × Reply)
  forget m canonical sched none =
      some (record { scheduler = sched; targets = none }, record { code = 200; message = "true" })
  forget m canonical sched (some d) = forgotten sched (ops.delete m canonical d)

  unfoldable pub handle_remove_target : String → String → Server T → Option (Server T × Reply)
  unfolding remove_target
  handle_remove_target m canonical s =
      if canonical == ""
      then some (s, record { code = 400; message = "canonical query parameter required" })
      else forget m canonical (remove_target m canonical s.scheduler) s.targets
