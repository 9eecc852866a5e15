-- ===== src/Store/Memory.antt =====
-- MemStore (store/memory.go). The map `recs` is its list of entries, newest first; the order in
-- which Go walks the map is not fixed, and no law here depends on it. The mutex is not modelled:
-- each method runs as a whole.
pub mod Keys
pub mod Laws
pub mod Targets
use Prim.Native.String.{◌++◌}
use certlight.Base.{
  GoMap, insert, lookup, without, String, Bool, true, false, ◌&&◌, Option, none, some, List, [],
  ◌∷◌, map, ◌==◌, if◌then◌else◌, Result, ok, err,
}
use certlight.Core.Severity.{status_to_string}
use certlight.Store.Records.{Record, StoreOps}

-- `memTarget`
pub record MemTarget : Type 0 where
  pub raw : String
  pub canonical : String

pub record MemStore : Type 0 where
  pub recs : List (String × Record)
  pub targets : Option (List (String × List MemTarget))  -- nil until the first `SaveTarget`

abbrev pub new_mem_store : MemStore
new_mem_store = record { recs = []; targets = none }

unfoldable pub key : String → String → String
key module_id fingerprint = module_id ++ "\0" ++ fingerprint

-- A loop over the map's values that keeps those that pass a test.
unfoldable pub select : (Record → Bool) → List (String × Record) → List Record
select test [] = []
select test ((k, r) ∷ m) = let rest = select test m in if test r then r ∷ rest else rest

unfoldable pub list_by_target : MemStore → String → String → Result String (List Record)
unfolding select
list_by_target m module_id target =
    ok (select (λ r. r.module_id == module_id && r.target == target) m.recs)

unfoldable pub upsert : Record → MemStore → MemStore × Option String
unfolding insert key
upsert r m = (record m { recs = insert (key r.module_id r.fingerprint) r m.recs }, none)

unfoldable pub get : MemStore → String → String → Result String (Option Record)
unfolding lookup key
get m module_id fingerprint = ok (lookup (key module_id fingerprint) m.recs)

unfoldable pub list_open : MemStore → String → Result String (List Record)
unfolding select
list_open m module_id =
    ok (select (λ r. r.module_id == module_id && status_to_string r.status == "open") m.recs)

unfoldable pub list_all : MemStore → String → Result String (List Record)
unfolding select
list_all m module_id = ok (select (λ r. r.module_id == module_id) m.recs)

-- `append(ts, t)`
abbrev pub append : List MemTarget → MemTarget → List MemTarget
append [] t = t ∷ []
append (u ∷ ts) t = u ∷ append ts t

-- The methods of `TargetStore`.
-- `m.targets`, or the map that `SaveTarget` makes.
abbrev pub targets_or_made : MemStore → List (String × List MemTarget)
targets_or_made m = elim m.targets [ none ↦ [] | some ts ↦ ts ]

-- A read of a nil map finds nothing.
unfoldable pub targets_of : MemStore → String → List MemTarget
unfolding lookup
targets_of m module_id = elim (lookup module_id (targets_or_made m)) [ none ↦ [] | some ts ↦ ts ]

unfoldable pub has_canonical : String → List MemTarget → Bool
has_canonical canonical [] = false
has_canonical canonical (t ∷ ts) =
    let rest = has_canonical canonical ts in if t.canonical == canonical then true else rest

unfoldable pub save_target : String → String → String → MemStore → MemStore
unfolding targets_of has_canonical insert
save_target module_id raw canonical m =
    if has_canonical canonical (targets_of m module_id)
    then record m { targets = some (targets_or_made m) }
    else record m {
      targets = some (
          insert module_id
            (append (targets_of m module_id) (record { raw = raw; canonical = canonical }))
            (targets_or_made m));
    }

unfoldable pub drop_canonical : String → List MemTarget → List MemTarget
drop_canonical canonical [] = []
drop_canonical canonical (t ∷ ts) =
    let rest = drop_canonical canonical ts in if t.canonical == canonical then rest else t ∷ rest

-- `none` is a panic: a write to a nil map.
unfoldable pub delete_target : String → String → MemStore → Option MemStore
unfolding targets_of drop_canonical insert
delete_target module_id canonical m = elim m.targets [
  | none ↦ none
  | some ts ↦ some (record m {
    targets = some (insert module_id (drop_canonical canonical (targets_of m module_id)) ts);
  })
]

unfoldable pub list_saved_targets : MemStore → String → List String
unfolding targets_of
list_saved_targets m module_id = map (λ (t : MemTarget). t.raw) (targets_of m module_id)

abbrev pub mem_ops : StoreOps MemStore
mem_ops = record {
  list_by_target = list_by_target;
  upsert = upsert;
  get = get;
  list_open = list_open;
  list_all = list_all;
}
