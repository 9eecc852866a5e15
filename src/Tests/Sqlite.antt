-- ===== src/Tests/Sqlite.antt =====
-- SQLiteStore over a database that is two lists, and a JSON of one text.
use mathlib.Core.List.{Permᴰ}
use mathlib.Core.List.Permᴰ
use certlight.Base.{
  ℕ, ◌≡◌, ◌∙◌, refl, sym, subst, ap, String, false, ◌&&◌, not, none, some, List, [], ◌∷◌, map, ◌==◌,
  Result, ok, err, length, if◌then◌else◌, contains, for_each,
}
use certlight.Core.Severity.{resolved, is_valid_severity}
use certlight.Core.Finding.{validate_for_ingest}
use certlight.Core.Value.{Fields, no_fields, field, num}
use certlight.Store.Records.{Record, by_fp, at_target, Distinct, kept}
use certlight.Store.Engine.{
  Scan, reconcile, ingest, ingest_new, draw_id, open_record, save, cap_evidence,
}
use certlight.Store.Engine.Rounds.{settled}
use certlight.Store.Engine.Loops.{fresh_at}
use certlight.Store.Sqlite.{
  is_stale, Row, Rows, Json, Database, scan_rows, scan_record, to_row, upsert, list_by_target,
  prune_resolved_before,
}
use certlight.Store.Sqlite.Tables.{
  DatabaseLaws, SavedRow, complete, row_at, where_row, upserted, is_saved, last,
}
use certlight.Store.Sqlite.Evidence.{JsonLaws, read_back}
use certlight.Store.Sqlite.Scanning.{read_row, prints}
use certlight.Store.Sqlite.Laws.{view, list_by_target_whole}
use certlight.Store.Sqlite.Retention.{retained, prune_resolved_before-retained}
use certlight.Store.Sqlite.Survival.{sqlite_engine, reconcile_survives}
use certlight.Tests.Engine.{product, weak_key}

pub record Tables : Type 0 where
  pub findings : List Row
  pub targets : List SavedRow

abbrev select_raws : List SavedRow → String → List String
select_raws ts m = map (λ (t : SavedRow). t.raw) (where_row (λ t. t.owner == m) ts)

abbrev pub tables : Database Tables
tables = record {
  create = λ d. (d, none);
  of_target =
      λ d m t. ok (complete (where_row (λ r. r.module_id == m && r.target == t) d.findings));
  of_status =
      λ d m s. ok (complete (where_row (λ r. r.module_id == m && r.status == s) d.findings));
  of_module = λ d m. ok (complete (where_row (λ r. r.module_id == m) d.findings));
  find = λ d m f. ok (row_at d.findings m f);
  put = λ r d. (record d { findings = upserted r d.findings }, none);
  vacuum = λ d. (d, none);
  delete_where = λ test d. (
    record d { findings = where_row (λ r. not (test r)) d.findings },
    ok (length (where_row test d.findings)),
  );
  add_target = λ m raw canonical d. (
    record d {
      targets =
          if is_saved m canonical d.targets
          then d.targets
          else last d.targets (record { owner = m; raw = raw; canonical = canonical });
    },
    none,
  );
  drop_target = λ m canonical d. (
    record d {
      targets = where_row (λ t. not (t.owner == m && t.canonical == canonical)) d.targets;
    },
    none,
  );
  raws = λ d m. ok (complete (select_raws d.targets m));
}

abbrev pub oks : {A : Type 0} → List (Result String A) → List A
oks [] = []
oks (ok x ∷ xs) = x ∷ oks xs
oks (err x ∷ xs) = oks xs

abbrev values : {A : Type 0} → Result String (Rows A) → List A
values (ok rows) = oks rows.scans
values (err x) = []

oks-map : {A : Type 0} (xs : List A) → oks (map ok xs) ≡ xs
oks-map [] = refl
oks-map (x ∷ xs) = ap (λ ys. x ∷ ys) (oks-map xs)

abbrev listing : {A : Type 0} → List A → Result String (Rows A)
listing xs = ok (complete xs)

pub same_rows : {A : Type 0} (xs ys : List A) → listing xs ≡ listing ys → xs ≡ ys
same_rows xs ys h = sym (oks-map xs) ∙ ap values h ∙ oks-map ys

abbrev pub tables_laws : DatabaseLaws tables
tables_laws = record {
  findings = λ d. d.findings;
  targets = λ d. d.targets;
  create-ok = λ d h. refl;
  put-ok = λ r d h. refl;
  put-failed = λ r d x h. cc;
  find-ok = λ d m f o h. cc;
  of_target-ok = λ d m t rs h.
      subst (λ ys. Permᴰ (where_row (λ r. r.module_id == m && r.target == t) d.findings) ys)
        (same_rows _ rs h) (Permᴰ.refl _);
  delete_where-ok = λ test d n h. refl;
  add_target-ok = λ m raw canonical d h. refl;
  drop_target-ok = λ m canonical d h. refl;
  raws-ok = λ d m rs h. sym (same_rows _ rs h);
}

-- An empty map is written as itself; every other map is read back as one number.
abbrev shown : Fields → Result String String
shown no_fields = ok "{}"
shown (field _ _ _) = ok "{\"n\":1}"

abbrev parsed : String → Fields
parsed b = if b == "{}" then no_fields else field "n" (num 1) no_fields

abbrev pub one_text : Json
one_text = record { marshal = shown; unmarshal = λ b. ok (some (parsed b)) }

abbrev text_or : Result String String → String
text_or (ok b) = b
text_or (err x) = x

writes : (f : Fields) (b : String) → shown f ≡ ok b → (b == "") ≡ false
writes no_fields b h = rw (sym (ap text_or h)) refl
writes (field k v g) b h = rw (sym (ap text_or h)) refl

stays : (f : Fields) (b c : String) → shown f ≡ ok b → shown (parsed b) ≡ ok c → parsed c ≡ parsed b
stays no_fields b c h k =
    let is : "{}" ≡ b = ap text_or h in
    let now : "{}" ≡ c = ap text_or (rw (sym is) at k) in rw (sym is, sym now) refl
stays (field x v g) b c h k =
    let is : "{\"n\":1}" ≡ b = ap text_or h in
    let now : "{\"n\":1}" ≡ c = ap text_or (rw (sym is) at k) in rw (sym is, sym now) refl

one_text_laws : JsonLaws one_text
one_text_laws = record {
  writes = writes;
  stays = λ f b h. (parsed b, refl, λ c k. ap (λ g. ok (some g)) (stays f b c h k));
}

abbrev weak_record : Record
weak_record = record {
  finding = record weak_key {
    id = "id";
    module_id = "certwatch";
    evidence = some (field "bits" (num 1024) no_fields);
    first_seen = 3;
    last_seen = 3;
  };
  absent_streak = 0;
}

abbrev seen_again : Record
seen_again = record {
  finding = record weak_record.finding { title = "RSA key is too small"; last_seen = 9 };
  absent_streak = 0;
}

abbrev pub empty : Tables
empty = record { findings = []; targets = [] }

abbrev stored : Tables
stored = (upsert one_text tables weak_record empty).0

list_by_target_whole_example :
    ((f : String)
      → by_fp (kept (read_back one_text) weak_record ∷ []) f
        ≡ at_target "h:443" (view one_text one_text_laws tables tables_laws stored "certwatch" f))
    × Distinct (prints (kept (read_back one_text) weak_record ∷ []))
unfolding list_by_target upsert upserted row_at scan_record to_row where_row scan_rows
list_by_target_whole_example =
    list_by_target_whole one_text one_text_laws tables tables_laws stored "certwatch" "h:443"
      (kept (read_back one_text) weak_record ∷ []) ((refl, tt), (refl, tt)) refl

abbrev aged : Tables
aged = record stored {
  findings =
      to_row one_text
        (record {
          finding = record weak_record.finding { status = resolved; resolved_at = some 5 };
          absent_streak = 2;
        })
        none
      ∷ [];
}

prune_resolved_before-retained_example :
    read_row one_text
      (row_at (prune_resolved_before one_text tables 6 aged).0.findings "certwatch" "f1")
    ≡ retained 6 (read_row one_text (row_at aged.findings "certwatch" "f1"))
unfolding prune_resolved_before row_at where_row to_row
prune_resolved_before-retained_example =
    prune_resolved_before-retained one_text tables tables_laws 6 1 aged
      (prune_resolved_before one_text tables 6 aged).0 "certwatch" "f1" (refl, tt) refl

pruned_is_gone :
    row_at (prune_resolved_before one_text tables 6 aged).0.findings "certwatch" "f1" ≡ none
unfolding prune_resolved_before row_at where_row to_row
pruned_is_gone = refl

abbrev drawn : ℕ → ℕ → Result String String
drawn calls now = ok "id"

abbrev scanned : Scan Tables
scanned =
    (reconcile (sqlite_engine one_text tables drawn) product 5 "h:443" (weak_key ∷ []) empty 0).0

scanned_ok :
    reconcile (sqlite_engine one_text tables drawn) product 5 "h:443" (weak_key ∷ []) empty 0
    ≡ (scanned, none)
unfolding reconcile for_each ingest ingest_new draw_id save list_by_target validate_for_ingest
    is_valid_severity by_fp upsert upserted open_record cap_evidence where_row scan_rows contains
scanned_ok = refl

reconcile_survives_example :
    (id : String) × (view one_text one_text_laws tables tables_laws
        (prune_resolved_before one_text tables 100 scanned.store).0
        product.id
        "f1"
      ≡ some (
          kept (read_back one_text) (
            settled product 5 id none
              (cap_evidence (sqlite_engine one_text tables drawn).marshal weak_key))))
unfolding prune_resolved_before fresh_at row_at validate_for_ingest is_valid_severity
reconcile_survives_example =
    reconcile_survives one_text one_text_laws tables tables_laws drawn product "h:443"
      (weak_key ∷ []) 5 100 0 (length (where_row (is_stale "resolved" 100) scanned.store.findings))
      empty (prune_resolved_before one_text tables 100 scanned.store).0 scanned (tt, tt)
      ((λ _. refl), tt) (λ fp f r found known. cc) scanned_ok refl "f1" weak_key refl
