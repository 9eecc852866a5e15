-- ===== src/Web/Listing/Agreement.antt =====
-- What the read-only handlers write agrees with the store and with each other.
use certlight.Base.{
  ℕ, suc, ◌+◌, ◌≡◌, refl, ◌∙◌, ap, GoMap, lookup, insert, lookup-insert, String, ◌&&◌, ◌||◌, not,
  leb, none, some, Bool, false, List, [], ◌∷◌, map, ◌==◌, length, if◌then◌else◌, Result, ok, err,
  Bool-cases, inl, inr, arith, eq_iff,
}
use certlight.Core.Severity.{
  severity_to_string, status_to_string, FindingStatus, open_status, resolved, acknowledged,
  suppressed, unknown_status,
}
use certlight.Core.Collector.{ModuleInfo}
use certlight.License.Activation.{Activation}
use certlight.Notify.Hfs.{Meta, Source, source_of}
use certlight.Store.Records.{Record, StoreOps}
use certlight.Store.Engine.{is_resolved}
use certlight.Sched.Registry.{Scheduler}
use certlight.Web.Listing.{
  wrote, Summary, or_zero, tally, with_records, summary_of, handle_summary, FindingJson, to_json,
  is_hidden, is_skipped, shown, handle_findings, cons_line, export_meta, exported,
  handle_findings_export,
}

-- How many records have a severity.
abbrev pub occurrences : String → List Record → ℕ
occurrences name [] = 0
occurrences name (r ∷ rs) =
    let rest = occurrences name rs in
    if severity_to_string r.severity == name then suc rest else rest

or_zero-insert :
    (name other : String) (n : ℕ) (counts : GoMap ℕ)
    → or_zero (lookup other (insert name n counts))
      ≡ (if name == other then n else or_zero (lookup other counts))
or_zero-insert name other n counts = ap or_zero (lookup-insert name other n counts) ∙ ground arith

tally-occurrences :
    (name : String) (rs : List Record) (counts : GoMap ℕ)
    → or_zero (lookup name (tally rs counts)) ≡ or_zero (lookup name counts) + occurrences name rs
unfolding tally
tally-occurrences name [] counts = omega arith
tally-occurrences name (r ∷ rs) counts =
    let here = severity_to_string r.severity in
    let step = or_zero-insert here name (suc (or_zero (lookup here counts))) counts in
    let later =
      tally-occurrences name rs (insert here (suc (or_zero (lookup here counts))) counts) in
    elim (Bool-cases (here == name)) [
      | inl same ↦ ground (
        arith,
        later,
        step,
        same,
        ap (λ k. or_zero (lookup k counts)) ((eq_iff here name).0 same),
      )
      | inr other ↦ ground (arith, later, step, other)
    ]

tally_all :
    (name : String) (rs : List Record) → or_zero (lookup name (tally rs [])) ≡ occurrences name rs
unfolding lookup
tally_all name rs = omega (arith, tally-occurrences name rs [])

-- A record counts until a day after it is resolved, which is 86400 seconds.
abbrev pub is_current : ℕ → Record → Bool
is_current now r =
    not (status_to_string r.status == "resolved")
    || elim r.resolved_at [ none ↦ false | some t ↦ leb now (t + 86400000000000) ]

abbrev pub current : ℕ → List Record → List Record
current now [] = []
current now (r ∷ rs) = let rest = current now rs in if is_current now r then r ∷ rest else rest

resolved-word : (x : FindingStatus) → is_resolved x ≡ (status_to_string x == "resolved")
resolved-word open_status = refl
resolved-word acknowledged = refl
resolved-word suppressed = refl
resolved-word resolved = refl
resolved-word (unknown_status w p) = ground (arith, p)

is_hidden-current : (now : ℕ) (r : Record) → is_hidden now r ≡ not (is_current now r)
unfolding is_hidden
is_hidden-current now r = ground (arith, resolved-word r.status)

is_skipped-current : (now : ℕ) (r : Record) → is_skipped now r ≡ not (is_current now r)
unfolding is_skipped
is_skipped-current now r = ground (arith, resolved-word r.status)

-- The lines of the records whose events can be printed.
abbrev pub lines_of : (Source → Result String String) → List Record → List String
lines_of line [] = []
lines_of line (r ∷ rs) = cons_line (line (source_of r.finding)) (lines_of line rs)

shown-current : (now : ℕ) (rs : List Record) → shown now rs ≡ map to_json (current now rs)
unfolding shown
shown-current now [] = refl
shown-current now (r ∷ rs) = elim (Bool-cases (is_current now r)) [
  | inl new ↦ rw (is_hidden-current now r, new) (ap (λ fs. to_json r ∷ fs) (shown-current now rs))
  | inr old ↦ rw (is_hidden-current now r, old) (shown-current now rs)
]

exported-current :
    (line : Source → Result String String) (now : ℕ) (rs : List Record)
    → exported line now rs ≡ lines_of line (current now rs)
unfolding exported
exported-current line now [] = refl
exported-current line now (r ∷ rs) = elim (Bool-cases (is_current now r)) [
  | inl new ↦
      rw (is_skipped-current now r, new)
        (ap (cons_line (line (source_of r.finding))) (exported-current line now rs))
  | inr old ↦ rw (is_skipped-current now r, old) (exported-current line now rs)
]

with_records-wrote :
    {A : Type 0} (q : Result String (List Record)) (f : List Record → A) (a : A)
    → with_records q f ≡ wrote a
    → (rs : List Record) × (q ≡ ok rs) × (a ≡ f rs)
with_records-wrote (err x) f a h = cc
with_records-wrote (ok rs) f a h = (rs, refl, ground (arith, h))

module _ {S : Type 0} (store : StoreOps S) (mod_info : ModuleInfo) where
  -- A summary that is written counts, for each severity, the open findings that the store lists.
  pub handle_summary_counts :
      (act : Activation) (sched : Scheduler) (s : S) (sum : Summary)
      → handle_summary store mod_info act sched s ≡ wrote sum
      → (rs : List Record) × (store.list_open s mod_info.id ≡ ok rs)
        × (sum.open_total ≡ length rs)
        × ((name : String) → or_zero (lookup name sum.counts) ≡ occurrences name rs)
  unfolding handle_summary
  handle_summary_counts act sched s sum h =
      let (rs, listed, is) =
        with_records-wrote (store.list_open s mod_info.id) (summary_of mod_info act sched) sum h in
      (rs, listed, rw is refl, λ name. rw is (tally_all name rs))

  -- At the same time, the dashboard shows the records of the store that are not resolved since more
  -- than a day, in its order, and the export has the line of each of them that can be printed.
  pub findings_export_agree :
      (meta : Meta) (line : Meta → ℕ → Source → Result String String) (now : ℕ) (format : String)
      (s : S) (fs : List FindingJson) (ls : List String)
      → handle_findings store mod_info now s ≡ wrote fs
      → handle_findings_export store mod_info meta line now format s ≡ wrote ls
      → (rs : List Record) × (store.list_all s mod_info.id ≡ ok rs)
        × (fs ≡ map to_json (current now rs))
        × (ls ≡ lines_of (line (export_meta meta mod_info) now) (current now rs))
  unfolding handle_findings handle_findings_export
  findings_export_agree meta line now format s fs ls h k =
      let print = line (export_meta meta mod_info) now in
      let (rs, listed, is) = with_records-wrote (store.list_all s mod_info.id) (shown now) fs h in
      elim (Bool-cases (not (format == "") && not (format == "hfs"))) [
        | inl bad ↦ absurd (ground (arith, rw bad at k))
        | inr fine ↦
            let (rs', listed', is') =
              with_records-wrote (store.list_all s mod_info.id) (exported print now) ls
                (rw fine at k) in
            let same : rs' ≡ rs = ground (arith, listed, listed') in
            (
              rs,
              listed,
              is ∙ shown-current now rs,
              is' ∙ ap (exported print now) same ∙ exported-current print now rs,
            )
      ]
