-- ===== src/Store/Records.antt =====
-- The record that is persisted and the interface `Store` (store/store.go), with the laws that the
-- engine relies on. A store that fails has an error text.
use certlight.Base.{
  ℕ, String, ap, ◌≡◌, Bool, true, false, ◌&&◌, Option, none, some, List, [], ◌∷◌, map, ◌==◌,
  if◌then◌else◌, Result, ok, contains,
}
use certlight.Core.Finding.{Finding}
use certlight.Core.Value.{Fields}

pub record Record : Type 0 where
  pub finding : Finding
  pub open finding use *
  pub absent_streak : ℕ

-- Interface `Store`. A write returns the store that it leaves, and its error.
pub record StoreOps (S : Type 0) : Type 0 where
  pub list_by_target : S → String → String → Result String (List Record)
  pub upsert : Record → S → S × Option String
  pub get : S → String → String → Result String (Option Record)
  pub list_open : S → String → Result String (List Record)
  pub list_all : S → String → Result String (List Record)

-- `byFP[fp]` after the loop that fills `byFP` from a list: the last record with the fingerprint.
unfoldable pub by_fp : List Record → String → Option Record
by_fp [] fp = none
by_fp (r ∷ rs) fp = elim (by_fp rs fp) [
  | none ↦ if r.fingerprint == fp then some r else none
  | some p ↦ some p
]

abbrev pub at_target : String → Option Record → Option Record
at_target t none = none
at_target t (some r) = if r.target == t then some r else none

-- No fingerprint stands twice in a list.
abbrev pub Distinct : List String → Type 0
Distinct [] = Unit
Distinct (x ∷ xs) = (contains x xs ≡ false) × Distinct xs

-- A write keeps what a store may keep of the record that stands at the same key.
abbrev pub Fits : Option Record → Record → Type 0
Fits none r = Unit
Fits (some old) r =
    (old.id ≡ r.id)
    × (old.target ≡ r.target)
    × (old.check ≡ r.check)
    × (old.first_seen ≡ r.first_seen)

-- The record with the evidence that a store gives back for what it was given.
abbrev pub kept : (Option Fields → Option Fields) → Record → Record
kept back r = record r { finding = record r.finding { evidence = back r.evidence } }

pub kept_same :
    (back : Option Fields → Option Fields) (r : Record)
    → back r.evidence ≡ r.evidence
    → kept back r ≡ r
kept_same back r same =
    ap (λ evidence. record r { finding = record r.finding { evidence = evidence } }) same

-- What a store promises: it is a map from module and fingerprint to records. Evidence may come back
-- in another form, `back`, which then stays.
pub record StoreLaws {S : Type 0} (ops : StoreOps S) : Type 1 where
  pub IsSound : S → Type 0
  pub is_module : String → Bool
  pub view : S → String → String → Option Record
  pub back : Option Fields → Option Fields
  pub view_kept :
      (s : S) (m f : String) (r : Record)
      → IsSound s
      → is_module m ≡ true
      → view s m f ≡ some r
      → back r.evidence ≡ r.evidence
  pub view_keys :
      (s : S) (m f : String) (r : Record)
      → IsSound s
      → is_module m ≡ true
      → view s m f ≡ some r
      → (r.module_id ≡ m) × (r.fingerprint ≡ f)
  pub upsert-IsSound :
      (r : Record) (s : S) → is_module r.module_id ≡ true → IsSound s → IsSound (ops.upsert r s).0
  pub view-upsert :
      (r : Record) (s : S) (m f : String)
      → IsSound s
      → is_module r.module_id ≡ true
      → is_module m ≡ true
      → Fits (view s r.module_id r.fingerprint) r
      → (ops.upsert r s).1 ≡ none
      → view (ops.upsert r s).0 m f
        ≡ (if r.module_id == m && r.fingerprint == f then some (kept back r) else view s m f)
  pub view-upsert_failed :
      (r : Record) (s : S) (m f x : String)
      → (ops.upsert r s).1 ≡ some x
      → view (ops.upsert r s).0 m f ≡ view s m f
  pub get-view :
      (s : S) (m f : String) (o : Option Record)
      → IsSound s
      → is_module m ≡ true
      → ops.get s m f ≡ ok o
      → o ≡ view s m f
  pub list-view :
      (s : S) (m t f : String) (rs : List Record)
      → IsSound s
      → is_module m ≡ true
      → ops.list_by_target s m t ≡ ok rs
      → by_fp rs f ≡ at_target t (view s m f)
  pub list-Distinct :
      (s : S) (m t : String) (rs : List Record)
      → IsSound s
      → is_module m ≡ true
      → ops.list_by_target s m t ≡ ok rs
      → Distinct (map (λ (r : Record). r.fingerprint) rs)
