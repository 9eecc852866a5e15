-- ===== src/Store/Targets.antt =====
-- `TargetStore` (store/targets.go): what the server and the start-up ask of a store of the user's
-- targets, and what they rely on. The two stores fill it.
use certlight.Base.{
  ◌≡◌, String, not, ◌&&◌, Option, none, some, List, map, ◌==◌, if◌then◌else◌, Result, ok,
}
use certlight.Store.Memory.{MemTarget, has_canonical, drop_canonical, append}

-- `delete` is `none` where it panics.
pub record TargetOps (T : Type 0) : Type 0 where
  pub save : String → String → String → T → T × Option String
  pub delete : String → String → T → Option (T × Option String)
  pub list : T → String → Result String (List String)

-- The view of a store: the targets that it keeps for a module, in the order in which they came.
pub record TargetLaws {T : Type 0} (ops : TargetOps T) : Type 0 where
  pub saved : T → String → List MemTarget
  pub save-ok :
      (m raw canonical n : String) (t t' : T)
      → ops.save m raw canonical t ≡ (t', none)
      → saved t' n ≡ (
          if m == n && not (has_canonical canonical (saved t n))
          then append (saved t n) (record { raw = raw; canonical = canonical })
          else saved t n)
  pub delete-ok :
      (m canonical n : String) (t t' : T)
      → ops.delete m canonical t ≡ some (t', none)
      → saved t' n ≡ (if m == n then drop_canonical canonical (saved t n) else saved t n)
  pub list-ok :
      (t : T) (m : String) (raws : List String)
      → ops.list t m ≡ ok raws
      → raws ≡ map (λ (x : MemTarget). x.raw) (saved t m)
