-- ===== src/Store/Engine/Reports.antt =====
-- What `Reconcile` reports: the findings to announce, the resolved ones and the rejected ones.
use certlight.Base.{
  ℕ, suc, ltb, ◌==◌, ◌≡◌, refl, ◌∙◌, ap, String, Bool, ◌||◌, not, none, some, arith, List, [], ◌∷◌,
  ◌++◌, if◌then◌else◌, contains, ok, for_each, for_each-cons-ok,
}
use mathlib.Core.List.{append-nil, append_assoc}
use mathlib.Core.Path.{fun_ext}
use certlight.Core.Severity.{
  FindingStatus, open_status, resolved, acknowledged, suppressed, unknown_status, status_to_string,
}
use certlight.Core.Finding.{Finding}
use certlight.Core.Collector.{ModuleInfo}
use certlight.Store.Records.{Record, by_fp}
use certlight.Store.Engine.{
  Engine, Scan, start, is_settled, reaches_threshold, age, save, age_out, reconcile,
}
use certlight.Store.Engine.Rounds.{is_none}
use certlight.Store.Engine.Rules.{threshold, threshold_lem}
use certlight.Store.Engine.Loops.{fresh_at, reconcile-inv}
use certlight.Store.Engine.Announced.{announced, refused, ingest_all-Reports, ingest_all_seen}

abbrev pub is_ended : FindingStatus → Bool
is_ended s = status_to_string s == "resolved" || status_to_string s == "suppressed"

settled-word : (x : FindingStatus) → is_settled x ≡ is_ended x
settled-word open_status = refl
settled-word acknowledged = refl
settled-word suppressed = refl
settled-word resolved = refl
settled-word (unknown_status w p) = ground (arith, p)

module _ {S : Type 0} (e : Engine S) (mod_info : ModuleInfo) (now : ℕ) where
  -- What this scan resolves of a known finding that is not seen, at its own time.
  abbrev pub expired_one : Record → List Finding
  expired_one r =
      if is_ended r.status || ltb (suc r.absent_streak) (threshold mod_info)
      then []
      else record r.finding { status = resolved; resolved_at = some now } ∷ []

  -- The findings that this scan resolves, in the order of the store.
  abbrev pub expired : (String → Bool) → List Record → List Finding
  expired seen [] = []
  expired seen (r ∷ rs) =
      let rest = expired seen rs in if seen r.fingerprint then rest else expired_one r ++ rest

  record Ages (gone : List Finding) (sc t : Scan S) : Type 0 where
    opened : t.res.newly_open ≡ sc.res.newly_open
    rejected : t.res.rejected ≡ sc.res.rejected
    resolved_more : t.res.resolved_now ≡ sc.res.resolved_now ++ gone
    seen : t.seen ≡ sc.seen

  age-Ages :
      (r : Record) (sc t : Scan S)
      → age_out e mod_info now r sc ≡ (t, none)
      → Ages (if contains r.fingerprint sc.seen then [] else expired_one r) sc t
  unfolding age_out save age reaches_threshold
  age-Ages r sc t done = record {
    opened = ground arith;
    rejected = ground arith;
    resolved_more =
        ground
          (arith, append-nil sc.res.resolved_now, settled-word r.status, threshold_lem mod_info);
    seen = ground arith;
  }

  age_all-Ages :
      (rs : List Record) (sc t : Scan S)
      → for_each (age_out e mod_info now) rs sc ≡ (t, none)
      → Ages (expired (λ fp. contains fp sc.seen) rs) sc t
  unfolding for_each
  age_all-Ages [] sc t done = record {
    opened = ground arith;
    rejected = ground arith;
    resolved_more = ground (arith, append-nil sc.res.resolved_now);
    seen = ground arith;
  }
  age_all-Ages (r ∷ rs) sc t done =
      let (mid, first, rest) = for_each-cons-ok (age_out e mod_info now) r rs sc done in
      let a = age-Ages r sc mid first in
      let b = age_all-Ages rs mid t rest in
      record {
        opened = b.opened ∙ a.opened;
        rejected = b.rejected ∙ a.rejected;
        resolved_more =
            b.resolved_more
            ∙ ap (λ l. l ++ expired (λ fp. contains fp mid.seen) rs) a.resolved_more
            ∙ append_assoc sc.res.resolved_now _ _
            ∙ ap
                (λ l.
                  sc.res.resolved_now
                  ++ ((if contains r.fingerprint sc.seen then [] else expired_one r)
                      ++ expired (λ fp. contains fp l) rs))
                a.seen
            ∙ ground arith;
        seen = b.seen ∙ a.seen;
      }

  -- What a reconcile without error reports, given what the store listed: the findings to announce,
  -- the refused ones and those that it resolves, each whole and in order.
  pub reconcile_reports :
      (target : String) (fresh : List Finding) (s : S) (calls : ℕ) (t : Scan S)
      → reconcile e mod_info now target fresh s calls ≡ (t, none)
      → (existing : List Record) × (e.store.list_by_target s mod_info.id target ≡ ok existing)
        × (t.res.newly_open ≡ announced e mod_info now (by_fp existing) calls fresh)
        × (t.res.rejected ≡ refused fresh)
        × (t.res.resolved_now ≡ expired (λ fp. not (is_none (fresh_at fresh fp))) existing)
  unfolding contains
  reconcile_reports target fresh s calls t done =
      let (existing, mid, listed, first, second) =
        reconcile-inv e mod_info now target fresh s calls t done in
      let a = ingest_all-Reports e mod_info now existing fresh (start s calls) mid first in
      let b = age_all-Ages existing mid t second in
      let seen : (λ fp. contains fp mid.seen) ≡ (λ fp. not (is_none (fresh_at fresh fp))) =
        fun_ext
          (λ fp. ingest_all_seen e mod_info now existing fresh (start s calls) mid fp first) in
      (
        existing,
        listed,
        b.opened ∙ a.opened,
        b.rejected ∙ a.rejected,
        b.resolved_more
            ∙ ap (λ l. l ++ expired (λ fp. contains fp mid.seen) existing) a.resolved_same
            ∙ ap (λ k. expired k existing) seen,
      )
