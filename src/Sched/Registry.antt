-- ===== src/Sched/Registry.antt =====
-- The modules and targets of a Scheduler (sched/scheduler.go). The targets of a registration are one
-- map that the registry and the loops share: it is held in the registry. Modules are never removed,
-- so the unlocked stretch of `AddTarget` sees the registration that stays.
pub mod Count
pub mod Known
use Prim.Native.String.{◌++◌}
use certlight.Base.{
  GoMap, ◌≡◌, refl, sym, ◌∙◌, ap, lookup, insert, without, lookup-insert, lookup-without, String,
  Bool, true, false, ◌&&◌, ◌==◌, text_refl, text_cases, inl, inr, Option, Option-cases, none, some,
  List, [], ◌∷◌, if◌then◌else◌, Result, ok, err, arith,
}
use certlight.Core.Collector.{ModuleInfo, Target}

-- A collector's two operations that registration uses; `Collect` is the answer that `scanOne` gets.
pub record Collector : Type 0 where
  pub describe : ModuleInfo
  pub validate_target : String → Result String Target

pub record Registration : Type 0 where
  pub collector : Collector
  pub info : ModuleInfo
  pub targets : GoMap Target  -- by their canonical form

-- `ctx`: nil, or the context that Start made, which may have ended.
pub data Context : Type 0 where
  nil : Context
  live ended : Context

-- `loops` are the modules for which a loop was started, `scans` the add-time scans.
pub record Scheduler : Type 0 where
  pub modules : GoMap Registration
  pub context : Context
  pub started : Bool
  pub loops : List String
  pub scans : List (String × Target)

abbrev pub new_scheduler : Scheduler
new_scheduler = record { modules = []; context = nil; started = false; loops = []; scans = [] }

abbrev pub keys_of {ℓ} : {A : Type ℓ} → GoMap A → List String
keys_of [] = []
keys_of ((k, x) ∷ entries) = k ∷ keys_of entries

abbrev pub values_of {ℓ} : {A : Type ℓ} → GoMap A → List A
values_of [] = []
values_of ((k, x) ∷ entries) = x ∷ values_of entries

unfoldable pub register : Collector → Scheduler → Scheduler × Option String
register c s =
    let info = c.describe in
    if info.id == ""
    then (s, some "collector ModuleInfo.ID must not be empty")
    else elim (lookup info.id s.modules) [
      | some _ ↦ (s, some ("module already registered: " ++ info.id))
      | none ↦ (
        record s {
          modules = insert info.id (record { collector = c; info = info; targets = [] }) s.modules;
        },
        none,
      )
    ]

abbrev pub is_live : Context → Bool
is_live live = true
is_live _ = false

-- The registration with the target, and the scan that a running scheduler starts at once.
abbrev pub place_target : String → Registration → Target → Scheduler → Scheduler
place_target m reg t s = record s {
  modules = insert m (record reg { targets = insert t.canonical t reg.targets }) s.modules;
  scans = if s.started && is_live s.context then (m, t) ∷ s.scans else s.scans;
}

abbrev pub place_valid :
    String → Registration → Result String Target → Scheduler → Scheduler × Result String Target
place_valid m reg (err x) s = (s, err x)
place_valid m reg (ok t) s = (place_target m reg t s, ok t)

abbrev pub place :
    String → String → Option Registration → Scheduler → Scheduler × Result String Target
place m raw none s = (s, err ("unknown module: " ++ m))
place m raw (some reg) s = place_valid m reg (reg.collector.validate_target raw) s

unfoldable pub add_target : String → String → Scheduler → Scheduler × Result String Target
unfolding lookup
add_target m raw s = place m raw (lookup m s.modules) s

unfoldable pub remove_target : String → String → Scheduler → Scheduler
unfolding lookup
remove_target m canonical s = elim (lookup m s.modules) [
  | none ↦ s
  | some reg ↦ record s {
    modules = insert m (record reg { targets = without canonical reg.targets }) s.modules;
  }
]

-- `parent_ended` tells whether the context that Start is given has ended.
unfoldable pub start : Bool → Scheduler → Scheduler × Option String
start parent_ended s = if s.started then (s, some "scheduler already started") else (
  record s {
    started = true;
    context = if parent_ended then ended else live;
    loops = keys_of s.modules;
  },
  none,
)

-- `cancel` ends the context; the wait for the scans in flight is no change of this state.
unfoldable pub stop : Scheduler → Scheduler
stop s = elim s.context [ nil ↦ s | _ ↦ record s { context = ended } ]

-- The target of a module with a canonical form.
unfoldable pub target_in : String → Option Registration → Option Target
unfolding lookup
target_in canonical none = none
target_in canonical (some reg) = lookup canonical reg.targets

-- The target of a module with a canonical form.
unfoldable pub target_of : String → String → Scheduler → Option Target
unfolding target_in
target_of m canonical s = target_in canonical (lookup m s.modules)

unfoldable pub list_targets : String → Scheduler → List Target
list_targets m s = elim (lookup m s.modules) [ none ↦ [] | some reg ↦ values_of reg.targets ]

target_in-insert :
    (m n c : String) (reg : Registration) (targets : GoMap Target) (modules : GoMap Registration)
    → target_in c (lookup n (insert m (record reg { targets = targets }) modules))
      ≡ (if m == n then lookup c targets else target_in c (lookup n modules))
unfolding target_in
target_in-insert m n c reg targets modules =
    ap (target_in c) (lookup-insert m n (record reg { targets = targets }) modules)
    ∙ elim (text_cases m n) [ inl is ↦ rw (is, text_refl n) refl | inr other ↦ rw other refl ]

place_valid-inv :
    (m : String) (reg : Registration) (r : Result String Target) (s s' : Scheduler) (t : Target)
    → place_valid m reg r s ≡ (s', ok t)
    → place_target m reg t s ≡ s'
place_valid-inv m reg (err x) s s' t h = cc
place_valid-inv m reg (ok u) s s' t h = cc

place-inv :
    (m raw : String) (o : Option Registration) (s s' : Scheduler) (t : Target)
    → place m raw o s ≡ (s', ok t)
    → (reg : Registration) × (o ≡ some reg) × (place_target m reg t s ≡ s')
place-inv m raw none s s' t h = cc
place-inv m raw (some reg) s s' t h =
    (reg, refl, place_valid-inv m reg (reg.collector.validate_target raw) s s' t h)

-- An added target is the module's only one of its canonical form, and every other target of every
-- module stays.
pub add_target-target_of :
    (m raw : String) (s s' : Scheduler) (t : Target)
    → add_target m raw s ≡ (s', ok t)
    → (n c : String)
    → target_of n c s' ≡ (if m == n && t.canonical == c then some t else target_of n c s)
unfolding add_target target_of
add_target-target_of m raw s s' t h n c =
    let (reg, known, is) = place-inv m raw (lookup m s.modules) s s' t h in
    ap (target_of n c) (sym is)
    ∙ target_in-insert m n c reg (insert t.canonical t reg.targets) s.modules
    ∙ elim (text_cases m n) [
      | inl same ↦ rw (sym same, text_refl m, known) (lookup-insert t.canonical c t reg.targets)
      | inr other ↦ rw other refl
    ]

-- A removed target is gone, and every other target of every module stays.
pub remove_target-target_of :
    (m canonical : String) (s : Scheduler) (n c : String)
    → target_of n c (remove_target m canonical s)
      ≡ (if m == n && canonical == c then none else target_of n c s)
unfolding remove_target target_of
remove_target-target_of m canonical s n c = elim (Option-cases (lookup m s.modules)) [
  | inl unknown ↦ elim (text_cases m n) [
    | inl same ↦ rw (sym same, text_refl m, unknown, remove_target) (ground arith)
    | inr other ↦ rw (other, unknown, remove_target) refl
  ]
  | inr (reg, known) ↦
      rw (known, remove_target)
        (target_in-insert m n c reg (without canonical reg.targets) s.modules
          ∙ elim (text_cases m n) [
            | inl same ↦ rw (sym same, text_refl m, known) (lookup-without canonical c reg.targets)
            | inr other ↦ rw other refl
          ])
]
