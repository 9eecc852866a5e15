-- ===== src/Store/Sqlite/Retention.antt =====
-- Retention and the saved targets of SQLiteStore.
use certlight.Base.{
  ℕ, leb, ◌≡◌, refl, ◌∙◌, ap, String, false, ◌&&◌, not, Option, none, some, arith, List, [], ◌∷◌,
  map, ◌==◌, if◌then◌else◌, ok, text_refl, inl, inr, Bool-cases,
}
use certlight.Core.Severity.{status_to_string, status_to_string-status_of_string}
use certlight.Store.Records.{Record}
use certlight.Store.Sqlite.{
  Row, Json, Database, is_stale, scan_record, prune_resolved_before, save_target, delete_target,
  list_saved_targets,
}
use certlight.Store.Sqlite.Tables.{
  DatabaseLaws, SavedRow, row_at, where_row, IsTable, row_at-where_row, is_saved, last,
}
use certlight.Store.Sqlite.Scanning.{read_row, fetch-complete}

-- What retention leaves of a record: one that was resolved before the cutoff goes.
abbrev pub retained : ℕ → Option Record → Option Record
retained cutoff none = none
retained cutoff (some r) = elim r.resolved_at [
  | none ↦ some r
  | some t ↦ if status_to_string r.status == "resolved" && not (leb cutoff t) then none else some r
]

unfoldable pub saved_of : String → List SavedRow → List String
saved_of m ts = map (λ (t : SavedRow). t.raw) (where_row (λ t. t.owner == m) ts)

saved_of-last :
    (m n raw canonical : String) (ts : List SavedRow)
    → saved_of n (last ts (record { owner = m; raw = raw; canonical = canonical }))
      ≡ (if m == n then last (saved_of n ts) raw else saved_of n ts)
unfolding saved_of where_row last
saved_of-last m n raw canonical [] = ground arith
saved_of-last m n raw canonical (t ∷ ts) = ground (arith, saved_of-last m n raw canonical ts)

map_same : (xs : List String) → map (λ x. x) xs ≡ xs
map_same [] = refl
map_same (x ∷ xs) = ap (λ ys. x ∷ ys) (map_same xs)

drop-last :
    (m raw canonical : String) (ts : List SavedRow)
    → is_saved m canonical ts ≡ false
    → where_row
        (λ t. not (t.owner == m && t.canonical == canonical))
        (last ts (record { owner = m; raw = raw; canonical = canonical }))
      ≡ ts
unfolding is_saved where_row last
drop-last m raw canonical [] h = rw (text_refl m, text_refl canonical) refl
drop-last m raw canonical (t ∷ ts) h = ground (arith, h, drop-last m raw canonical ts)

module _ (json : Json) {D : Type 0} (db : Database D) (laws : DatabaseLaws db) where
  retained_row :
      (cutoff : ℕ) (o : Option Row)
      → read_row json (elim o [
        | none ↦ none
        | some r ↦ if not (is_stale "resolved" cutoff r) then some r else none
      ])
        ≡ retained cutoff (read_row json o)
  unfolding scan_record
  retained_row cutoff none = refl
  retained_row cutoff (some r) = ground (arith, status_to_string-status_of_string r.status)

  -- Retention without error, in a table with each key once, removes the records with the status
  -- resolved and a time of it before the cutoff, and no other.
  pub prune_resolved_before-retained :
      (cutoff n : ℕ) (d t : D) (m f : String)
      → IsTable (laws.findings d)
      → prune_resolved_before json db cutoff d ≡ (t, ok n)
      → read_row json (row_at (laws.findings t) m f)
        ≡ retained cutoff (read_row json (row_at (laws.findings d) m f))
  unfolding prune_resolved_before scan_record
  prune_resolved_before-retained cutoff n d t m f table h =
      let is = laws.delete_where-ok (is_stale "resolved" cutoff) d n (rw h refl) in
      rw (ap (λ p. laws.findings p.0) h) at (
        ap (λ rs. read_row json (row_at rs m f)) is
        ∙ ap (read_row json) (row_at-where_row _ (laws.findings d) m f table)
        ∙ retained_row cutoff (row_at (laws.findings d) m f))

  pub raws_listed :
      (d : D) (n : String) (rs : List String)
      → list_saved_targets json db d n ≡ ok rs
      → rs ≡ saved_of n (laws.targets d)
  unfolding list_saved_targets saved_of
  raws_listed d n rs h =
      let (xs, p, q) = fetch-complete (λ raw. raw) (db.raws d n) rs h in
      q ∙ map_same xs ∙ laws.raws-ok d n xs p

  -- Where a save and the lists before and after it succeed, a target that is not saved yet is listed
  -- after those that were saved before it, and nothing else changes.
  list_saved_targets-save_target :
      (m n raw canonical : String) (d t : D) (before after : List String)
      → save_target json db m raw canonical d ≡ (t, none)
      → list_saved_targets json db d n ≡ ok before
      → list_saved_targets json db t n ≡ ok after
      → after ≡ (
          if m == n && not (is_saved m canonical (laws.targets d)) then last before raw else before)
  unfolding save_target
  list_saved_targets-save_target m n raw canonical d t before after h p q =
      let wrote = rw h at (laws.add_target-ok m raw canonical d (rw h refl)) in
      rw (raws_listed d n before p, raws_listed t n after q, wrote)
        (elim (Bool-cases (is_saved m canonical (laws.targets d))) [
          | inl known ↦ rw known (ground arith)
          | inr new ↦ rw new (saved_of-last m n raw canonical (laws.targets d) ∙ ground arith)
        ])

  -- Where both succeed, deleting a target that was new when it was saved leaves the table as it was.
  delete_target-save_target :
      (m raw canonical : String) (d mid t : D)
      → is_saved m canonical (laws.targets d) ≡ false
      → save_target json db m raw canonical d ≡ (mid, none)
      → delete_target json db m canonical mid ≡ (t, none)
      → laws.targets t ≡ laws.targets d
  unfolding save_target delete_target
  delete_target-save_target m raw canonical d mid t new h p =
      let wrote = laws.add_target-ok m raw canonical d (rw h refl) in
      let gone = laws.drop_target-ok m canonical mid (rw p refl) in
      rw p at gone
      ∙ ap (where_row _) (rw (h, new) at wrote)
      ∙ drop-last m raw canonical (laws.targets d) new
