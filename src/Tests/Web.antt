-- ===== src/Tests/Web.antt =====
-- Suppressing the finding that the MemStore knows, and adding a target under the free limits.
use certlight.License.Tier.{free_limits}
use certlight.Sched.Registry.{list_targets, register, add_target}
use certlight.Tests.Sched.{ready}
use certlight.Web.Targets.{Server, handle_add_target}
use certlight.Base.{length, insert, ◌≡◌, refl, some, lookup}
use certlight.Store.Memory.{MemStore, mem_ops}
use certlight.Store.Memory.Targets.{mem_targets}
use certlight.Web.Status.{Reply, handle_finding_status}
use certlight.Tests.Engine.{known_store}

abbrev suppressed_store : MemStore
suppressed_store =
    (handle_finding_status mem_ops "certwatch" (some ("f1", "suppressed")) known_store).0

abbrev success : Reply
success = record { code = 200; message = "true" }

abbrev idle : Server MemStore
idle = record { scheduler = ready; targets = some known_store }

-- The target is added.
target_added :
    length (
      list_targets "certwatch"
        (handle_add_target mem_targets free_limits "certwatch" (some "h") idle).0.scheduler)
    ≡ 1
unfolding handle_add_target list_targets lookup register add_target insert
target_added = refl
