-- ===== src/Store/Engine/Announced.antt =====
-- The first loop of `Reconcile` (store/reconcile.go): what it announces and what it rejects.
use certlight.Base.{
  ℕ, suc, ◌==◌, err, ◌≡◌, refl, ◌∙◌, ap, String, Bool, true, ◌||◌, not, Option, none, some, arith,
  List, [], ◌∷◌, ◌++◌, if◌then◌else◌, contains, inl, inr, Option-cases, Result-cases, ok, for_each,
  for_each-cons-ok,
}
use mathlib.Core.List.{append-nil, append_assoc}
use certlight.Core.Severity.{
  FindingStatus, open_status, resolved, acknowledged, suppressed, unknown_status, status_to_string,
}
use certlight.Core.Finding.{Finding, IngestError, validate_for_ingest}
use certlight.Core.Collector.{ModuleInfo}
use certlight.Store.Records.{Record, by_fp}
use certlight.Store.Engine.{
  Engine, Scan, RejectedFinding, cap_evidence, is_resolved, save, draw_id, ingest_new, ingest_known,
  ingest_valid, ingest,
}
use certlight.Store.Engine.Rounds.{
  settled, ingest_accepted, ingest_rejected, ingest_valid-inv, save_seen, is_none,
}
use certlight.Store.Engine.Rules.{by_rules, settled-by_rules}
use certlight.Store.Engine.Loops.{fresh_at}

abbrev pub is_news : Option Record → Bool
is_news none = true
is_news (some r) = status_to_string r.status == "resolved"

-- The ids asked for after a finding: one more for a new one.
abbrev pub drawn_one : Option IngestError → Option Record → ℕ → ℕ
drawn_one (some x) o n = n
drawn_one none none n = suc n
drawn_one none (some r) n = n

abbrev pub refused_one : Option IngestError → Finding → List RejectedFinding
refused_one (some x) f = record { finding = f; error = x } ∷ []
refused_one none f = []

-- The findings that the check at the door refuses, each with its reason.
abbrev pub refused : List Finding → List RejectedFinding
refused [] = []
refused (f ∷ fs) = refused_one (validate_for_ingest f) f ++ refused fs

pub resolved-word : (x : FindingStatus) → is_resolved x ≡ (status_to_string x == "resolved")
resolved-word open_status = refl
resolved-word acknowledged = refl
resolved-word suppressed = refl
resolved-word resolved = refl
resolved-word (unknown_status w p) = ground (arith, p)

module _ {S : Type 0} (e : Engine S) (mod_info : ModuleInfo) (now : ℕ) where
  -- The id that the generator gives at its call `n`.
  abbrev pub id_at : ℕ → String
  id_at n = elim (e.new_id n now) [ ok id ↦ id | err x ↦ "" ]

  -- A finding is announced, as the rules leave it, if it was unknown or resolved.
  abbrev pub announced_one : Option IngestError → Option Record → ℕ → Finding → List Finding
  announced_one (some x) o n f = []
  announced_one none none n f = (by_rules mod_info now e.marshal (id_at n) none f).finding ∷ []
  announced_one none (some r) n f =
      if is_news (some r) then (by_rules mod_info now e.marshal "" (some r) f).finding ∷ [] else []

  -- The findings to announce, in their order, given what the store knows and the ids asked for.
  abbrev pub announced : (String → Option Record) → ℕ → List Finding → List Finding
  announced known n [] = []
  announced known n (f ∷ fs) =
      let v = validate_for_ingest f in
      announced_one v (known f.fingerprint) n f
      ++ announced known (drawn_one v (known f.fingerprint) n) fs

  pub record Reports (news : List Finding) (bad : List RejectedFinding) (ids : ℕ) (sc t : Scan S)
      : Type 0 where
    pub opened : t.res.newly_open ≡ sc.res.newly_open ++ news
    pub rejected : t.res.rejected ≡ sc.res.rejected ++ bad
    pub resolved_same : t.res.resolved_now ≡ sc.res.resolved_now
    pub calls : t.calls ≡ ids

  -- What the code announces of a finding that is valid.
  abbrev valid_news : Option Record → ℕ → Finding → List Finding
  valid_news none n g = (settled mod_info now (id_at n) none g).finding ∷ []
  valid_news (some r) n g =
      if is_resolved r.status then (settled mod_info now "" (some r) g).finding ∷ [] else []

  valid_news-announced :
      (o : Option Record) (n : ℕ) (f : Finding)
      → valid_news o n (cap_evidence e.marshal f) ≡ announced_one none o n f
  valid_news-announced none n f =
      ap (λ (r : Record). r.finding ∷ []) (settled-by_rules mod_info now e.marshal (id_at n) none f)
  valid_news-announced (some r) n f =
      ap
        (λ b.
          if b
          then (settled mod_info now "" (some r) (cap_evidence e.marshal f)).finding ∷ []
          else [])
        (resolved-word r.status)
      ∙ ap (λ (x : Record). if is_news (some r) then x.finding ∷ [] else [])
          (settled-by_rules mod_info now e.marshal "" (some r) f)

  valid-Reports :
      (o : Option Record) (g : Finding) (sc t : Scan S)
      → ingest_valid e mod_info now o g sc ≡ (t, none)
      → Reports (valid_news o sc.calls g) [] (drawn_one none o sc.calls) sc t
  unfolding ingest_new draw_id ingest_known save
  valid-Reports none g sc t done = elim (Result-cases (e.new_id sc.calls now)) [
    | inl (id, p) ↦ record {
      opened = ground arith;
      rejected = ground (arith, append-nil sc.res.rejected);
      resolved_same = ground arith;
      calls = ground arith;
    }
    | inr (x, p) ↦ absurd (ground arith)
  ]
  valid-Reports (some prev) g sc t done = record {
    opened = ground (arith, append-nil sc.res.newly_open);
    rejected = ground (arith, append-nil sc.res.rejected);
    resolved_same = ground arith;
    calls = ground arith;
  }

  ingest-Reports :
      (existing : List Record) (f : Finding) (sc t : Scan S)
      → ingest e mod_info now existing f sc ≡ (t, none)
      → let v = validate_for_ingest f in
        let o = by_fp existing f.fingerprint in
        Reports (announced_one v o sc.calls f) (refused_one v f) (drawn_one v o sc.calls) sc t
  ingest-Reports existing f sc t done = elim (Option-cases (validate_for_ingest f)) [
    | inl valid ↦
        let g : Finding = cap_evidence e.marshal f in
        let o = by_fp existing f.fingerprint in
        let r = valid-Reports o g _ t (ingest_accepted e mod_info now existing f sc t valid done) in
        record {
          opened =
              rw valid
                (r.opened ∙ ap (λ l. sc.res.newly_open ++ l) (valid_news-announced o sc.calls f));
          rejected = rw valid r.rejected;
          resolved_same = r.resolved_same;
          calls = rw valid r.calls;
        }
    | inr (x, bad) ↦ record {
      opened = unfold ingest in ground (arith, append-nil sc.res.newly_open);
      rejected = unfold ingest in ground arith;
      resolved_same = unfold ingest in ground arith;
      calls = unfold ingest in ground arith;
    }
  ]

  abbrev pub ids_after : (String → Option Record) → ℕ → List Finding → ℕ
  ids_after known n [] = n
  ids_after known n (f ∷ fs) =
      ids_after known (drawn_one (validate_for_ingest f) (known f.fingerprint) n) fs

  pub ingest_all-Reports :
      (existing : List Record) (fs : List Finding) (sc t : Scan S)
      → for_each (ingest e mod_info now existing) fs sc ≡ (t, none)
      → Reports
          (announced (by_fp existing) sc.calls fs)
          (refused fs)
          (ids_after (by_fp existing) sc.calls fs)
          sc
          t
  unfolding for_each
  ingest_all-Reports existing [] sc t done = record {
    opened = ground (arith, append-nil sc.res.newly_open);
    rejected = ground (arith, append-nil sc.res.rejected);
    resolved_same = ground arith;
    calls = ground arith;
  }
  ingest_all-Reports existing (f ∷ fs) sc t done =
      let (mid, first, rest) = for_each-cons-ok (ingest e mod_info now existing) f fs sc done in
      let a = ingest-Reports existing f sc mid first in
      let b = ingest_all-Reports existing fs mid t rest in
      let ids : ℕ = drawn_one (validate_for_ingest f) (by_fp existing f.fingerprint) sc.calls in
      record {
        opened =
            b.opened
            ∙ ap (λ n. mid.res.newly_open ++ announced (by_fp existing) n fs) a.calls
            ∙ ap (λ l. l ++ announced (by_fp existing) ids fs) a.opened
            ∙ append_assoc sc.res.newly_open _ _;
        rejected = rw (b.rejected, a.rejected, append_assoc);
        resolved_same = b.resolved_same ∙ a.resolved_same;
        calls = b.calls ∙ ap (λ n. ids_after (by_fp existing) n fs) a.calls;
      }

  ingest_seen :
      (existing : List Record) (f : Finding) (sc t : Scan S)
      → ingest e mod_info now existing f sc ≡ (t, none)
      → t.seen ≡ (if is_none (validate_for_ingest f) then f.fingerprint ∷ sc.seen else sc.seen)
  ingest_seen existing f sc t done = elim (Option-cases (validate_for_ingest f)) [
    | inl valid ↦
        let (id, from, mid, saved, _, e2, _, e4) =
          ingest_valid-inv e mod_info now (by_fp existing f.fingerprint) _ _ t
            (ingest_accepted e mod_info now existing f sc t valid done) in
        rw valid (e4 ∙ save_seen e mod_info now _ from mid saved ∙ e2)
    | inr (x, bad) ↦ rw (bad, (ingest_rejected e mod_info now existing f sc t x bad done).1)
  ]

  pub ingest_all_seen :
      (existing : List Record) (fs : List Finding) (sc t : Scan S) (fp : String)
      → for_each (ingest e mod_info now existing) fs sc ≡ (t, none)
      → contains fp t.seen ≡ (contains fp sc.seen || not (is_none (fresh_at fs fp)))
  unfolding for_each contains
  ingest_all_seen existing [] sc t fp done = ground arith
  ingest_all_seen existing (f ∷ fs) sc t fp done =
      let (mid, first, rest) = for_each-cons-ok (ingest e mod_info now existing) f fs sc done in
      ground (
        arith,
        ingest_seen existing f sc mid first,
        ap (contains fp) (ingest_seen existing f sc mid first),
        ingest_all_seen existing fs mid t fp rest,
      )
