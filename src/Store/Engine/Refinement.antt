-- ===== src/Store/Engine/Refinement.antt =====
-- `Reconcile` as a whole, against its description: one record per fingerprint of the module.
use certlight.Base.{
  ℕ, ◌≡◌, ◌≢◌, refl, sym, ◌∙◌, ap, String, true, false, not, Option, none, some, arith, List, [],
  ◌∷◌, ◌==◌, eq_iff, if◌then◌else◌, contains, text_refl, text_ne, All, inl, inr, Option-cases,
}
use certlight.Core.Finding.{Finding}
use certlight.Core.Collector.{ModuleInfo}
use certlight.Store.Records.{Record, StoreLaws, by_fp, at_target, Distinct, kept}
use certlight.Store.Engine.{Engine, Scan, start, reconcile}
use certlight.Store.Engine.Rounds.{is_none, absent}
use certlight.Store.Engine.Rules.{by_rules, missed, settled-by_rules, absent-missed}
use certlight.Store.Engine.Loops.{
  fresh_at, NoRepeat, IngestedAll, ingest_all, AgedAll, for_each-age_out, fingerprints,
  by_fp_missing, reconcile-inv,
}

-- What a scan without a finding leaves of a record: one more absence, if the record is of the
-- scan's target.
abbrev pub aged_at : ModuleInfo → ℕ → String → Option Record → Option Record
aged_at mod_info now target none = none
aged_at mod_info now target (some r) =
    if r.target == target then some (missed mod_info now r) else some r

every_record :
    (P : Record → Type 0) (rs : List Record)
    → Distinct (fingerprints rs)
    → ((fp : String) (r : Record) → by_fp rs fp ≡ some r → P r)
    → All P rs
unfolding by_fp
every_record P [] d h = tt
every_record P (r ∷ rs) d h =
    let last = by_fp_missing rs r.fingerprint d.0 in
    (
      h r.fingerprint r (ground (arith, text_refl r.fingerprint)),
      every_record P rs d.1 (λ fp x found. h fp x (rw found)),
    )

pub at_target-some :
    (t : String) (o : Option Record) (r : Record)
    → at_target t o ≡ some r
    → (o ≡ some r) × (r.target ≡ t)
at_target-some t none r h = absurd (cc)
at_target-some t (some x) r h = ground (arith, eq_iff x.target t)

pub at_target_home :
    (t : String) (o : Option Record)
    → ((r : Record) → o ≡ some r → r.target ≡ t)
    → at_target t o ≡ o
at_target_home t none h = refl
at_target_home t (some r) h = rw (h r refl, text_refl t)

unseen_fresh : (o : Option Finding) → not (is_none o) ≡ false → o ≡ none
unseen_fresh o h = ground arith

aged_at_elsewhere :
    (mod_info : ModuleInfo) (now : ℕ) (t : String) (o : Option Record)
    → at_target t o ≡ none
    → aged_at mod_info now t o ≡ o
aged_at_elsewhere mod_info now t none h = refl
aged_at_elsewhere mod_info now t (some r) h = ground arith

aged_at_home :
    (mod_info : ModuleInfo) (now : ℕ) (t : String) (r : Record)
    → r.target ≡ t
    → some (absent mod_info now r) ≡ aged_at mod_info now t (some r)
aged_at_home mod_info now t r at =
    let test : (r.target == t) ≡ true = rw at (text_refl t) in
    ap some (absent-missed mod_info now r)
    ∙ ap (λ b. if b then some (missed mod_info now r) else some r) (sym test)

module _ {S : Type 0} (e : Engine S) (laws : StoreLaws e.store) (mod_info : ModuleInfo)
    (now : ℕ) where
  open laws use {IsSound, is_module, view}

  -- The store after a scan, by fingerprint, and for the other modules.
  pub record Reconciled (target : String) (fresh : List Finding) (s t : S) : Type 0 where
    pub sound : IsSound t
    pub reported :
        (fp : String) (f : Finding)
        → fresh_at fresh fp ≡ some f
        → (id : String) × (view t mod_info.id fp
            ≡ some (kept laws.back (by_rules mod_info now e.marshal id (view s mod_info.id fp) f)))
    pub unreported :
        (fp : String)
        → fresh_at fresh fp ≡ none
        → view t mod_info.id fp ≡ aged_at mod_info now target (view s mod_info.id fp)
    pub other_modules :
        (m fp : String) → is_module m ≡ true → mod_info.id ≢ m → view t m fp ≡ view s m fp

  -- A reconcile without error, of findings whose fingerprints do not repeat, where known ones are of
  -- the target, leaves the records of the module as the rules say and those of other modules as they
  -- were.
  pub reconcile_refines :
      (target : String) (fresh : List Finding) (s : S) (calls : ℕ) (t : Scan S)
      → is_module mod_info.id ≡ true
      → IsSound s
      → NoRepeat fresh
      → ((fp : String) (f : Finding) (r : Record)
          → fresh_at fresh fp ≡ some f
          → view s mod_info.id fp ≡ some r
          → r.target ≡ target)
      → reconcile e mod_info now target fresh s calls ≡ (t, none)
      → Reconciled target fresh s t.store
  unfolding contains
  reconcile_refines target fresh s calls t p h single home done =
      let (existing, mid, listed, first, second) =
        reconcile-inv e mod_info now target fresh s calls t done in
      let listing = λ (fp : String). laws.list-view s mod_info.id target fp existing h p listed in
      let distinct = laws.list-Distinct s mod_info.id target existing h p listed in
      let stored = λ (fp : String) (r : Record) (q : by_fp existing fp ≡ some r).
        at_target-some target (view s mod_info.id fp) r (sym (listing fp) ∙ q) in
      let known = λ (fp : String) (f : Finding) (found : fresh_at fresh fp ≡ some f).
        listing fp ∙ at_target_home target (view s mod_info.id fp) (λ r q. home fp f r found q) in
      let a : IngestedAll e laws mod_info now existing fresh (start s calls) mid =
        ingest_all e laws mod_info now existing fresh (start s calls) mid p h single known first in
      let unseen : (fp : String) → fresh_at fresh fp ≡ none → contains fp mid.seen ≡ false =
        λ fp q. rw (a.seen fp, q, contains) in
      let same : (fp : String)
          → fresh_at fresh fp ≡ none
          → view mid.store mod_info.id fp ≡ view s mod_info.id fp =
        λ fp q. a.elsewhere mod_info.id fp p (rw (q, text_refl mod_info.id)) in
      let own =
        every_record (λ r. r.module_id ≡ mod_info.id) existing distinct
          (λ fp r q. (laws.view_keys s mod_info.id fp r h p (stored fp r q).0).0) in
      let b : AgedAll e laws mod_info now existing mid t =
        for_each-age_out e laws mod_info now existing mid t p a.sound distinct own
          (λ fp r q not_seen.
            same fp (unseen_fresh (fresh_at fresh fp) (sym (a.seen fp) ∙ not_seen))
            ∙ (stored fp r q).0)
          second in
      record {
        sound = b.sound;
        reported = λ fp f found.
            let (id, written) = a.there fp f found in
            let seen : contains fp mid.seen ≡ true = rw (a.seen fp, found, contains) in
            let stays : view t.store mod_info.id fp ≡ view mid.store mod_info.id fp =
              elim (Option-cases (by_fp existing fp)) [
                | inl missing ↦ b.elsewhere mod_info.id fp p (rw (missing, text_refl mod_info.id))
                | inr (r, at) ↦ b.there fp r at ∙ (rw seen)
              ] in
            (
              id,
              stays
                  ∙ written
                  ∙ rw (known fp f found) (
                      ap (λ r. some (kept laws.back r))
                        (settled-by_rules mod_info now e.marshal id (view s mod_info.id fp) f)),
            );
        unreported = λ fp q. elim (Option-cases (by_fp existing fp)) [
          | inl missing ↦
              b.elsewhere mod_info.id fp p (rw (missing, text_refl mod_info.id))
              ∙ same fp q
              ∙ sym (aged_at_elsewhere mod_info now target _ (sym (listing fp) ∙ missing))
          | inr (r, found) ↦
              let (was, at) = stored fp r found in
              rw (b.there fp r found, unseen fp q, was) (aged_at_home mod_info now target r at)
        ];
        other_modules = λ m fp q other.
            let miss = text_ne mod_info.id m other in
            b.elsewhere m fp q (rw miss) ∙ a.elsewhere m fp q (rw miss);
      }
