-- ===== src/Store/Sqlite/Laws.antt =====
-- SQLiteStore keeps the laws of a store, over a database and a JSON that keep theirs.
use certlight.Base.{
  ◌≡◌, refl, sym, subst, ◌∙◌, ap, String, true, ◌&&◌, Option, Option-cases, none, some, arith, List,
  [], ◌∷◌, ◌==◌, eq_iff, if◌then◌else◌, Result-cases, ok, All, Bool-cases, inl, inr,
}
use certlight.Core.Severity.{
  severity_of_string-severity_to_string, status_of_string-status_to_string,
}
use certlight.Store.Records.{Record, StoreLaws, Fits, kept, by_fp, at_target, Distinct}
use certlight.Store.Sqlite.{
  Row, Json, Database, scan_record, marshal_evidence, to_row, sqlite_ops, upsert, get,
  list_by_target,
}
use certlight.Store.Sqlite.Tables.{
  DatabaseLaws, row_at, is_at, merged, upserted, IsTable, row_at-upserted, upserted-IsTable,
}
use certlight.Store.Sqlite.Evidence.{
  JsonLaws, read_back, Stays, read_evidence-marshal_evidence, marshalled_stays,
}
use certlight.Store.Sqlite.Scanning.{
  read_row, prints, fetch-complete, map-Permᴰ, by_fp-Permᴰ, Distinct-Permᴰ, by_fp-selected,
  selected-Distinct,
}

All-row_at :
    (P : Row → Type 0) (rs : List Row) (m f : String) (r : Row)
    → All P rs
    → row_at rs m f ≡ some r
    → P r
unfolding row_at
All-row_at P [] m f r h e = cc
All-row_at P (x ∷ rs) m f r h e = elim (Bool-cases (is_at m f x)) [
  | inl here ↦ subst P (ground (arith, rw here at e)) h.0
  | inr other ↦ All-row_at P rs m f r h.1 (rw other at e)
]

row_at_key :
    (rs : List Row) (m f : String) (r : Row)
    → row_at rs m f ≡ some r
    → (r.module_id ≡ m) × (r.fingerprint ≡ f)
unfolding row_at
row_at_key [] m f r e = cc
row_at_key (x ∷ rs) m f r e =
    ground (arith, row_at_key rs m f r, eq_iff x.module_id m, eq_iff x.fingerprint f)

upserted-All :
    (P : Row → Type 0) (new : Row) (rs : List Row)
    → P new
    → ((old : Row) → P (merged old new))
    → All P rs
    → All P (upserted new rs)
unfolding upserted
upserted-All P new [] p q h = (p, tt)
upserted-All P new (r ∷ rs) p q h = elim (Bool-cases (is_at new.module_id new.fingerprint r)) [
  | inl here ↦ rw here (q r, h.1)
  | inr other ↦ rw other (h.0, upserted-All P new rs p q h.1)
]

module _ (json : Json) (stable : JsonLaws json) {D : Type 0} (db : Database D)
    (laws : DatabaseLaws db) where
  abbrev pub IsSound : D → Type 0
  IsSound d = IsTable (laws.findings d) × All (Stays json) (laws.findings d)

  abbrev pub view : D → String → String → Option Record
  view d m f = read_row json (row_at (laws.findings d) m f)

  read_row-inv :
      (o : Option Row) (r : Record)
      → read_row json o ≡ some r
      → (row : Row) × (o ≡ some row) × (scan_record json row ≡ r)
  read_row-inv none r h = cc
  read_row-inv (some row) r h = (row, refl, ground (arith, h))

  pub view-kept :
      (d : D) (m f : String) (r : Record)
      → IsSound d
      → view d m f ≡ some r
      → read_back json r.evidence ≡ r.evidence
  unfolding scan_record
  view-kept d m f r sound h =
      let (row, p, q) = read_row-inv (row_at (laws.findings d) m f) r h in
      subst (λ (x : Record). read_back json x.evidence ≡ x.evidence) q
        (All-row_at (Stays json) (laws.findings d) m f row sound.1 p)

  pub view-keys :
      (d : D) (m f : String) (r : Record)
      → view d m f ≡ some r
      → (r.module_id ≡ m) × (r.fingerprint ≡ f)
  unfolding scan_record
  view-keys d m f r h =
      let (row, p, q) = read_row-inv (row_at (laws.findings d) m f) r h in
      rw (sym q) (row_at_key (laws.findings d) m f row p)

  -- A record that is stored is read as it was, its evidence as JSON gives it back.
  scan_record-to_row :
      (r : Record) (e : Option String)
      → marshal_evidence json r.evidence ≡ ok e
      → scan_record json (to_row json r e) ≡ kept (read_back json) r
  unfolding scan_record to_row
  scan_record-to_row r e h =
      rw
        (
          severity_of_string-severity_to_string r.severity,
          status_of_string-status_to_string r.status,
          read_evidence-marshal_evidence json r.evidence e h,
        )
        refl

  upsert_written :
      (r : Record) (d : D)
      → (upsert json db r d).1 ≡ none
      → (e : Option String) × (marshal_evidence json r.evidence ≡ ok e)
        × (laws.findings (upsert json db r d).0 ≡ upserted (to_row json r e) (laws.findings d))
  unfolding upsert
  upsert_written r d h = elim (Result-cases (marshal_evidence json r.evidence)) [
    | inl (e, p) ↦ (e, p, rw p (laws.put-ok (to_row json r e) d (rw p at h)))
    | inr (x, p) ↦ absurd (ground (arith, rw p at h))
  ]

  pub upsert_failed :
      (r : Record) (d : D) (x : String)
      → (upsert json db r d).1 ≡ some x
      → laws.findings (upsert json db r d).0 ≡ laws.findings d
  unfolding upsert
  upsert_failed r d x h = elim (Result-cases (marshal_evidence json r.evidence)) [
    | inl (e, p) ↦ rw p (laws.put-failed (to_row json r e) d x (rw p at h))
    | inr (y, p) ↦ rw p refl
  ]

  pub upsert-IsSound : (r : Record) (d : D) → IsSound d → IsSound (upsert json db r d).0
  unfolding to_row
  upsert-IsSound r d sound = elim (Option-cases (upsert json db r d).1) [
    | inl done ↦
        let (e, p, q) = upsert_written r d done in
        let stays = marshalled_stays json stable r.evidence e p in
        rw q (
          upserted-IsTable (to_row json r e) (laws.findings d) sound.0,
          upserted-All (Stays json) (to_row json r e) (laws.findings d) stays (λ old. stays)
              sound.1,
        )
    | inr (x, failed) ↦ rw (upsert_failed r d x failed) sound
  ]

  -- What is written over a row that fits is the record.
  merged-Fits :
      (r : Record) (e : Option String) (o : Option Row)
      → ((old : Row)
          → o ≡ some old
          → (old.module_id ≡ r.module_id) × (old.fingerprint ≡ r.fingerprint))
      → Fits (read_row json o) r
      → (elim o [ none ↦ to_row json r e | some old ↦ merged old (to_row json r e) ])
        ≡ to_row json r e
  unfolding to_row scan_record
  merged-Fits r e none keys fits = refl
  merged-Fits r e (some old) keys (a, b, c, t) =
      let (p, q) = keys old refl in
      λ i. record (to_row json r e) {
        id = a i;
        fingerprint = q i;
        module_id = p i;
        target = b i;
        check_id = c i;
        first_seen = t i;
      }

  pub view-upsert :
      (r : Record) (d : D) (m f : String)
      → Fits (view d r.module_id r.fingerprint) r
      → (upsert json db r d).1 ≡ none
      → view (upsert json db r d).0 m f ≡ (
          if r.module_id == m && r.fingerprint == f
          then some (kept (read_back json) r)
          else view d m f)
  unfolding to_row
  view-upsert r d m f fits done =
      let (e, p, q) = upsert_written r d done in
      let rows = laws.findings d in
      let new = to_row json r e in
      let same =
        merged-Fits r e (row_at rows r.module_id r.fingerprint)
          (λ old at. row_at_key rows r.module_id r.fingerprint old at) fits in
      rw (q, row_at-upserted new rows m f)
        (elim (Bool-cases (r.module_id == m && r.fingerprint == f)) [
          | inl here ↦ rw here (rw same (ap some (scan_record-to_row r e p)))
          | inr other ↦ rw other refl
        ])

  pub get-view :
      (d : D) (m f : String) (o : Option Record) → get json db d m f ≡ ok o → o ≡ view d m f
  unfolding get
  get-view d m f o h = elim (Result-cases (db.find d m f)) [
    | inl (none, p) ↦ rw (sym (laws.find-ok d m f none p)) (ground (arith, rw p at h))
    | inl (some row, p) ↦ rw (sym (laws.find-ok d m f (some row) p)) (ground (arith, rw p at h))
    | inr (x, p) ↦ absurd (ground (arith, rw p at h))
  ]

  -- A list that is returned without an error has each record of the module and the target, each once:
  -- a cursor that breaks off is reported, and never a part of the list.
  pub list_by_target_whole :
      (d : D) (m t : String) (rs : List Record)
      → IsSound d
      → list_by_target json db d m t ≡ ok rs
      → ((f : String) → by_fp rs f ≡ at_target t (view d m f)) × Distinct (prints rs)
  unfolding list_by_target
  list_by_target_whole d m t rs sound h =
      let (rows, p, q) = fetch-complete (scan_record json) (db.of_target d m t) rs h in
      let order = map-Permᴰ (scan_record json) (laws.of_target-ok d m t rows p) in
      let once = selected-Distinct json m t (laws.findings d) sound.0 in
      rw q (
        (λ f. sym (by_fp-Permᴰ f order once) ∙ by_fp-selected json m t f (laws.findings d) sound.0),
        Distinct-Permᴰ (map-Permᴰ (λ (r : Record). r.fingerprint) order) once,
      )

  -- SQLiteStore is a store.
  abbrev pub sqlite_laws : StoreLaws (sqlite_ops json db)
  sqlite_laws = record {
    IsSound = IsSound;
    is_module = λ m. true;
    view = view;
    back = read_back json;
    view_kept = λ d m f r sound p h. view-kept d m f r sound h;
    view_keys = λ d m f r sound p h. view-keys d m f r h;
    upsert-IsSound = λ r d p sound. upsert-IsSound r d sound;
    view-upsert = λ r d m f sound p q fits done. view-upsert r d m f fits done;
    view-upsert_failed = λ r d m f x failed.
        ap (λ rows. read_row json (row_at rows m f)) (upsert_failed r d x failed);
    get-view = λ d m f o sound p h. get-view d m f o h;
    list-view = λ d m t f rs sound p h. (list_by_target_whole d m t rs sound h).0 f;
    list-Distinct = λ d m t rs sound p h. (list_by_target_whole d m t rs sound h).1;
  }
