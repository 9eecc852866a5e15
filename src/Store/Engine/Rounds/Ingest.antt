-- ===== src/Store/Engine/Rounds/Ingest.antt =====
-- One round of the loop over the fresh findings.
use certlight.Base.{
  ℕ, ◌≡◌, sym, ◌∙◌, String, true, false, ◌&&◌, none, some, List, ◌∷◌, ◌==◌, if◌then◌else◌,
  text_refl, inl, inr, Option-cases,
}
use certlight.Core.Finding.{Finding, validate_for_ingest}
use certlight.Core.Collector.{ModuleInfo}
use certlight.Store.Records.{Record, StoreLaws, by_fp, kept}
use certlight.Store.Engine.{Engine, Scan, cap_evidence, ingest}
use certlight.Store.Engine.Rounds.{
  is_none, cap_evidence-fingerprint, settled, settled_keys, ingest_valid-inv, ingest_accepted,
  ingest_rejected,
}
use certlight.Store.Engine.Rounds.Writes.{save-Writes}

module _ {S : Type 0} (e : Engine S) (laws : StoreLaws e.store) (mod_info : ModuleInfo)
    (now : ℕ) where
  open laws use {IsSound, is_module, view}

  pub record Ingested (existing : List Record) (f : Finding) (sc t : Scan S) : Type 0 where
    pub sound : IsSound t.store
    pub seen :
        t.seen ≡ (if is_none (validate_for_ingest f) then f.fingerprint ∷ sc.seen else sc.seen)
    pub elsewhere :
        (m fp : String)
        → is_module m ≡ true
        → (is_none (validate_for_ingest f) && (mod_info.id == m && f.fingerprint == fp)) ≡ false
        → view t.store m fp ≡ view sc.store m fp
    pub there :
        validate_for_ingest f ≡ none
        → (id : String) × (view t.store mod_info.id f.fingerprint
            ≡ some (
                kept laws.back (
                  settled mod_info now id
                    (by_fp existing f.fingerprint)
                    (cap_evidence e.marshal f))))

  Ingested-accepted :
      (existing : List Record) (f : Finding) (sc t : Scan S)
      → is_module mod_info.id ≡ true
      → IsSound sc.store
      → validate_for_ingest f ≡ none
      → by_fp existing f.fingerprint ≡ view sc.store mod_info.id f.fingerprint
      → ingest e mod_info now existing f sc ≡ (t, none)
      → Ingested existing f sc t
  Ingested-accepted existing f sc t p h valid known done =
      let k : String = f.fingerprint in
      let g : Finding = cap_evidence e.marshal f in
      let (id, from, mid, saved, e1, e2, e3, e4) =
        ingest_valid-inv e mod_info now (by_fp existing k) g _ t
          (ingest_accepted e mod_info now existing f sc t valid done) in
      let r : Record = settled mod_info now id (by_fp existing k) g in
      let (in_module, at_key, fits) =
        settled_keys mod_info now id k (by_fp existing k) g
          (λ x q. laws.view_keys sc.store mod_info.id k x h p (sym known ∙ q))
          (cap_evidence-fingerprint e f) in
      let (w, _, seen) =
        save-Writes e laws mod_info now r k from mid in_module at_key p (rw e1 h)
          (rw (e1, ← known) fits) saved in
      record {
        sound = rw e3 w.sound;
        seen = rw valid (e4 ∙ seen ∙ e2);
        elsewhere = λ m fp q miss. rw (e3, w.there m fp q, rw valid at miss, e1);
        there = λ _. (id, rw (e3, w.there mod_info.id k p, text_refl mod_info.id, text_refl k));
      }

  pub ingest-Ingested :
      (existing : List Record) (f : Finding) (sc t : Scan S)
      → is_module mod_info.id ≡ true
      → IsSound sc.store
      → (validate_for_ingest f ≡ none
          → by_fp existing f.fingerprint ≡ view sc.store mod_info.id f.fingerprint)
      → ingest e mod_info now existing f sc ≡ (t, none)
      → Ingested existing f sc t
  ingest-Ingested existing f sc t p h known done = elim (Option-cases (validate_for_ingest f)) [
    | inl valid ↦ Ingested-accepted existing f sc t p h valid (known valid) done
    | inr (x, bad) ↦
        let (store, seen) = ingest_rejected e mod_info now existing f sc t x bad done in
        record {
          sound = rw store h;
          seen = rw (bad, seen);
          elsewhere = λ m fp q miss. rw store;
          there = λ valid. cc;
        }
  ]
