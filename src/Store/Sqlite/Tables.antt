-- ===== src/Store/Sqlite/Tables.antt =====
-- What SQLite promises of the statements of store/sqlite.go: the tables are lists of rows in the
-- order of their row ids, and a statement that fails leaves them.
use mathlib.Core.List.{Permᴰ}
use certlight.Base.{
  ℕ, ◌≡◌, refl, String, Bool, true, false, ◌&&◌, not, Option, none, some, arith, List, [], ◌∷◌, map,
  ◌==◌, eq_iff, if◌then◌else◌, ok,
}
use certlight.Store.Sqlite.{Row, Rows, Database}

abbrev pub is_at : String → String → Row → Bool
is_at m f r = r.module_id == m && r.fingerprint == f

unfoldable pub row_at : List Row → String → String → Option Row
row_at [] m f = none
row_at (r ∷ rs) m f = let later = row_at rs m f in if is_at m f r then some r else later

unfoldable pub where_row : {A : Type 0} → (A → Bool) → List A → List A
where_row test [] = []
where_row test (r ∷ rs) = let rest = where_row test rs in if test r then r ∷ rest else rest

-- `DO UPDATE SET`: the row that stands keeps its id, its key, its target, its check and the time it
-- was first seen.
abbrev pub merged : Row → Row → Row
merged old new = record new {
  id = old.id;
  fingerprint = old.fingerprint;
  module_id = old.module_id;
  target = old.target;
  check_id = old.check_id;
  first_seen = old.first_seen;
}

-- `INSERT … ON CONFLICT(module, fingerprint) DO UPDATE`
unfoldable pub upserted : Row → List Row → List Row
upserted new [] = new ∷ []
upserted new (r ∷ rs) =
    let rest = upserted new rs in
    if is_at new.module_id new.fingerprint r then merged r new ∷ rs else r ∷ rest

-- `UNIQUE(module, fingerprint)`
abbrev pub IsTable : List Row → Type 0
IsTable [] = Unit
IsTable (r ∷ rs) = (row_at rs r.module_id r.fingerprint ≡ none) × IsTable rs

-- A row of `targets`.
pub record SavedRow : Type 0 where
  pub owner : String
  pub raw : String
  pub canonical : String

unfoldable pub is_saved : String → String → List SavedRow → Bool
is_saved m canonical [] = false
is_saved m canonical (t ∷ ts) =
    let rest = is_saved m canonical ts in
    if t.owner == m && t.canonical == canonical then true else rest

unfoldable pub last : {A : Type 0} → List A → A → List A
last [] x = x ∷ []
last (y ∷ ys) x = y ∷ last ys x

-- A cursor that gives every row and no error.
abbrev pub complete : {A : Type 0} → List A → Rows A
complete rs = record { scans = map ok rs; at_end = none }

pub record DatabaseLaws {D : Type 0} (db : Database D) : Type 0 where
  pub findings : D → List Row
  pub targets : D → List SavedRow
  -- `CREATE … IF NOT EXISTS`
  pub create-ok : (d : D) → (db.create d).1 ≡ none → targets (db.create d).0 ≡ targets d
  pub put-ok :
      (r : Row) (d : D) → (db.put r d).1 ≡ none → findings (db.put r d).0 ≡ upserted r (findings d)
  pub put-failed :
      (r : Row) (d : D) (x : String)
      → (db.put r d).1 ≡ some x
      → findings (db.put r d).0 ≡ findings d
  pub find-ok :
      (d : D) (m f : String) (o : Option Row) → db.find d m f ≡ ok o → o ≡ row_at (findings d) m f
  -- Without ORDER BY the rows come in any order.
  pub of_target-ok :
      (d : D) (m t : String) (rs : List Row)
      → db.of_target d m t ≡ ok (complete rs)
      → Permᴰ (where_row (λ r. r.module_id == m && r.target == t) (findings d)) rs
  pub delete_where-ok :
      (test : Row → Bool) (d : D) (n : ℕ)
      → (db.delete_where test d).1 ≡ ok n
      → findings (db.delete_where test d).0 ≡ where_row (λ r. not (test r)) (findings d)
  pub add_target-ok :
      (m raw canonical : String) (d : D)
      → (db.add_target m raw canonical d).1 ≡ none
      → targets (db.add_target m raw canonical d).0 ≡ (
          if is_saved m canonical (targets d)
          then targets d
          else last (targets d) (record { owner = m; raw = raw; canonical = canonical }))
  pub drop_target-ok :
      (m canonical : String) (d : D)
      → (db.drop_target m canonical d).1 ≡ none
      → targets (db.drop_target m canonical d).0
        ≡ where_row (λ t. not (t.owner == m && t.canonical == canonical)) (targets d)
  -- `ORDER BY rowid`
  pub raws-ok :
      (d : D) (m : String) (rs : List String)
      → db.raws d m ≡ ok (complete rs)
      → rs ≡ map (λ (t : SavedRow). t.raw) (where_row (λ t. t.owner == m) (targets d))

pub row_at-upserted :
    (new : Row) (rs : List Row) (m f : String)
    → row_at (upserted new rs) m f ≡ (
        if is_at m f new
        then some (elim (row_at rs new.module_id new.fingerprint) [
          | none ↦ new
          | some old ↦ merged old new
        ])
        else row_at rs m f)
unfolding row_at upserted
row_at-upserted new [] m f = ground arith
row_at-upserted new (r ∷ rs) m f = ground (
  arith,
  row_at-upserted new rs m f,
  eq_iff r.module_id new.module_id,
  eq_iff r.fingerprint new.fingerprint,
  eq_iff r.module_id m,
  eq_iff r.fingerprint f,
  eq_iff new.module_id m,
  eq_iff new.fingerprint f,
)

-- Only what a test keeps is found, where each key stands once.
pub row_at-where_row :
    (test : Row → Bool) (rs : List Row) (m f : String)
    → IsTable rs
    → row_at (where_row test rs) m f
      ≡ elim (row_at rs m f) [ none ↦ none | some r ↦ if test r then some r else none ]
unfolding row_at where_row
row_at-where_row test [] m f h = refl
row_at-where_row test (r ∷ rs) m f h =
    ground (arith, row_at-where_row test rs m f h.1, eq_iff r.module_id m, eq_iff r.fingerprint f)

pub upserted-IsTable : (new : Row) (rs : List Row) → IsTable rs → IsTable (upserted new rs)
unfolding row_at upserted
upserted-IsTable new [] h = (refl, tt)
upserted-IsTable new (r ∷ rs) h = ground (
  arith,
  h,
  upserted-IsTable new rs h.1,
  row_at-upserted new rs r.module_id r.fingerprint,
  eq_iff r.module_id new.module_id,
  eq_iff r.fingerprint new.fingerprint,
  eq_iff new.module_id r.module_id,
  eq_iff new.fingerprint r.fingerprint,
)

pub where_row-IsTable :
    (test : Row → Bool) (rs : List Row) → IsTable rs → IsTable (where_row test rs)
unfolding where_row
where_row-IsTable test [] h = tt
where_row-IsTable test (r ∷ rs) h = ground (
  arith,
  where_row-IsTable test rs h.1,
  h,
  row_at-where_row test rs r.module_id r.fingerprint h.1,
)
