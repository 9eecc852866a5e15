-- ===== src/Store/Sqlite/Scanning.antt =====
-- The loop over the rows of a query, and what the order of the rows changes.
use mathlib.Core.List.{Permᴰ}
use certlight.Base.{
  ◌≡◌, refl, sym, ◌∙◌, ap, String, Bool, false, ◌&&◌, Option, none, some, arith, List, [], ◌∷◌, map,
  ◌==◌, eq_iff, Result, Result-cases, ok, err, contains, inl, inr,
}
use certlight.Store.Records.{Record, by_fp, at_target, Distinct}
use certlight.Store.Sqlite.{Row, Rows, Json, scan_rows, fetch, scan_record}
use certlight.Store.Sqlite.Tables.{complete, row_at, where_row, IsTable}

abbrev pub read_row : Json → Option Row → Option Record
read_row json none = none
read_row json (some row) = some (scan_record json row)

-- A loop that succeeds has met every row, and no error at the end.
scan_rows_complete :
    {A B : Type 0} (f : A → B) (scans : List (Result String A)) (end : Option String) (bs : List B)
    → scan_rows f scans end ≡ ok bs
    → (rows : List A) × (scans ≡ map ok rows) × (end ≡ none) × (bs ≡ map f rows)
unfolding scan_rows
scan_rows_complete f [] none bs h = ([], refl, refl, cc)
scan_rows_complete f [] (some x) bs h = cc
scan_rows_complete f (err x ∷ more) end bs h = cc
scan_rows_complete f (ok a ∷ more) end bs h = elim (Result-cases (scan_rows f more end)) [
  | inr (x, p) ↦ absurd (ground (arith, p))
  | inl (cs, p) ↦
      let (rows, q, r, t) = scan_rows_complete f more end cs p in
      let is : ok (f a ∷ cs) ≡ ok bs = rw p at h in (a ∷ rows, rw q refl, r, ground (arith, t))
]

pub fetch-complete :
    {A B : Type 0} (f : A → B) (q : Result String (Rows A)) (bs : List B)
    → fetch f q ≡ ok bs
    → (rows : List A) × (q ≡ ok (complete rows)) × (bs ≡ map f rows)
fetch-complete f (err x) bs h = cc
fetch-complete f (ok rows) bs h =
    let (all, q, r, t) = scan_rows_complete f rows.scans rows.at_end bs h in
    (all, ap ok (λ i. record { scans = q i; at_end = r i }), t)

pub map-Permᴰ :
    {A B : Type 0} (f : A → B) {xs ys : List A} → Permᴰ xs ys → Permᴰ (map f xs) (map f ys)
map-Permᴰ f Permᴰ.nil = Permᴰ.nil
map-Permᴰ f (Permᴰ.cons e d) = Permᴰ.cons (ap f e) (map-Permᴰ f d)
map-Permᴰ f (Permᴰ.swap a b) = Permᴰ.swap (ap f a) (ap f b)
map-Permᴰ f (Permᴰ.trans d e) = Permᴰ.trans (map-Permᴰ f d) (map-Permᴰ f e)

pub contains-Permᴰ :
    (k : String) {xs ys : List String} → Permᴰ xs ys → contains k xs ≡ contains k ys
unfolding contains
contains-Permᴰ k Permᴰ.nil = refl
contains-Permᴰ k (Permᴰ.cons e d) = ground (arith, e, contains-Permᴰ k d)
contains-Permᴰ k (Permᴰ.swap a b) = ground (arith, a, b)
contains-Permᴰ k (Permᴰ.trans d e) = contains-Permᴰ k d ∙ contains-Permᴰ k e

pub Distinct-Permᴰ : {xs ys : List String} → Permᴰ xs ys → Distinct xs → Distinct ys
unfolding contains
Distinct-Permᴰ Permᴰ.nil h = tt
Distinct-Permᴰ (Permᴰ.cons {b = b} e d) h =
    (sym (contains-Permᴰ b d) ∙ rw e at h.0, Distinct-Permᴰ d h.1)
Distinct-Permᴰ (Permᴰ.swap {a = a} {b = b} p q) h = ground (arith, h, p, q, eq_iff a b, eq_iff b a)
Distinct-Permᴰ (Permᴰ.trans d e) h = Distinct-Permᴰ e (Distinct-Permᴰ d h)

abbrev pub prints : List Record → List String
prints = map (λ (r : Record). r.fingerprint)

pub by_fp-absent :
    (rs : List Record) (f : String) → contains f (prints rs) ≡ false → by_fp rs f ≡ none
unfolding by_fp contains
by_fp-absent [] f h = refl
by_fp-absent (r ∷ rs) f h = ground (arith, by_fp-absent rs f)

-- Where no fingerprint stands twice, a record is found whatever the order.
pub by_fp-Permᴰ :
    (f : String) {xs ys : List Record}
    → Permᴰ xs ys
    → Distinct (prints xs)
    → by_fp xs f ≡ by_fp ys f
unfolding by_fp contains
by_fp-Permᴰ f Permᴰ.nil h = refl
by_fp-Permᴰ f (Permᴰ.cons e d) h = ground (arith, e, by_fp-Permᴰ f d h.1)
by_fp-Permᴰ f (Permᴰ.swap {a = a} {b = b} {l = l} p q) h = ground (
  arith,
  h,
  p,
  q,
  eq_iff a.fingerprint b.fingerprint,
  eq_iff b.fingerprint a.fingerprint,
  eq_iff a.fingerprint f,
  eq_iff b.fingerprint f,
  by_fp-absent l f,
)
by_fp-Permᴰ f (Permᴰ.trans d e) h =
    by_fp-Permᴰ f d h
    ∙ by_fp-Permᴰ f e (Distinct-Permᴰ (map-Permᴰ (λ (r : Record). r.fingerprint) d) h)

-- The selected rows of a module, as records.
module _ (json : Json) (m t : String) where
  abbrev pub of_target_at : Row → Bool
  of_target_at r = r.module_id == m && r.target == t

  abbrev pub selected : List Row → List Record
  selected rs = map (scan_record json) (where_row of_target_at rs)

  pub by_fp-selected :
      (f : String) (rs : List Row)
      → IsTable rs
      → by_fp (selected rs) f ≡ at_target t (read_row json (row_at rs m f))
  unfolding by_fp row_at where_row scan_record
  by_fp-selected f [] h = refl
  by_fp-selected f (r ∷ rs) h =
      ground (arith, by_fp-selected f rs h.1, h.0, eq_iff r.module_id m, eq_iff r.fingerprint f)

  absent_print :
      (rs : List Record) (f : String) → by_fp rs f ≡ none → contains f (prints rs) ≡ false
  unfolding by_fp contains
  absent_print [] f h = refl
  absent_print (r ∷ rs) f h = ground (arith, absent_print rs f)

  pub selected-Distinct : (rs : List Row) → IsTable rs → Distinct (prints (selected rs))
  unfolding where_row scan_record
  selected-Distinct [] h = tt
  selected-Distinct (r ∷ rs) h = ground (
    arith,
    selected-Distinct rs h.1,
    h.0,
    by_fp-selected r.fingerprint rs h.1,
    absent_print (selected rs) r.fingerprint,
    eq_iff r.module_id m,
  )
