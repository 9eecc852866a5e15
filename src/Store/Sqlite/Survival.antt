-- ===== src/Store/Sqlite/Survival.antt =====
-- The engine over SQLiteStore, followed by retention.
use certlight.Base.{
  sym, ℕ, ◌≡◌, refl, ◌∙◌, ap, String, false, Option, none, some, List, Result, ok, err, arith, ◌==◌,
}
use certlight.Core.Severity.{
  FindingStatus, resolved, status_to_string, open_status, acknowledged, suppressed, unknown_status,
}
use certlight.Core.Finding.{Finding}
use certlight.Core.Collector.{ModuleInfo}
use certlight.Store.Records.{Record, kept}
use certlight.Store.Engine.{Engine, Scan, reconcile, is_resolved, cap_evidence}
use certlight.Store.Engine.Rounds.{settled}
use certlight.Store.Engine.Rules.{settled-by_rules}
use certlight.Store.Engine.Loops.{NoRepeat, fresh_at}
use certlight.Store.Engine.Refinement.{Reconciled, reconcile_refines}
use certlight.Store.Engine.Silence.{settled_unresolved}
use certlight.Store.Sqlite.{Json, Database, sqlite_ops, prune_resolved_before}
use certlight.Store.Sqlite.Tables.{DatabaseLaws}
use certlight.Store.Sqlite.Evidence.{JsonLaws, read_back}
use certlight.Store.Sqlite.Laws.{sqlite_laws, view, IsSound}
use certlight.Store.Sqlite.Retention.{retained, prune_resolved_before-retained}

abbrev marshalled : Result String String → Option String
marshalled (ok b) = some b
marshalled (err x) = none

abbrev pub sqlite_engine :
    {D : Type 0} → Json → Database D → (ℕ → ℕ → Result String String) → Engine D
sqlite_engine json db new_id = record {
  store = sqlite_ops json db;
  new_id = new_id;
  marshal = λ ev. marshalled (json.marshal ev);
}

unresolved_name :
    (x : FindingStatus) → is_resolved x ≡ false → (status_to_string x == "resolved") ≡ false
unresolved_name open_status h = refl
unresolved_name resolved h = cc
unresolved_name acknowledged h = refl
unresolved_name suppressed h = refl
unresolved_name (unknown_status s p) h = ground (arith, p)

retained-unresolved :
    (cutoff : ℕ) (r : Record) → is_resolved r.status ≡ false → retained cutoff (some r) ≡ some r
retained-unresolved cutoff r h = ground (arith, unresolved_name r.status h)

module _ (json : Json) (stable : JsonLaws json) {D : Type 0} (db : Database D)
    (laws : DatabaseLaws db) (new_id : ℕ → ℕ → Result String String) (mod_info : ModuleInfo) where
  -- After a scan without error whose fingerprints do not repeat, where known ones are of the target,
  -- retention without error leaves each finding that the scan reported, whatever the cutoff.
  pub reconcile_survives :
      (target : String) (fresh : List Finding) (now cutoff calls n : ℕ) (d d' : D) (t : Scan D)
      → IsSound json stable db laws d
      → NoRepeat fresh
      → ((fp : String) (f : Finding) (r : Record)
          → fresh_at fresh fp ≡ some f
          → view json stable db laws d mod_info.id fp ≡ some r
          → r.target ≡ target)
      → reconcile (sqlite_engine json db new_id) mod_info now target fresh d calls ≡ (t, none)
      → prune_resolved_before json db cutoff t.store ≡ (d', ok n)
      → (fp : String) (f : Finding) → fresh_at fresh fp ≡ some f
      → (id : String) × (view json stable db laws d' mod_info.id fp
          ≡ some (
              kept (read_back json) (
                settled mod_info now id
                  (view json stable db laws d mod_info.id fp)
                  (cap_evidence (sqlite_engine json db new_id).marshal f))))
  reconcile_survives target fresh now cutoff calls n d d' t sound single home done pruned fp f
        found =
      let e = sqlite_engine json db new_id in
      let r : Reconciled e (sqlite_laws json stable db laws) mod_info now target fresh d t.store =
        reconcile_refines e (sqlite_laws json stable db laws) mod_info now target fresh d calls t
          refl sound single home done in
      let (id, left) = r.reported fp f found in
      (
        id,
        prune_resolved_before-retained json db laws cutoff n t.store d' mod_info.id fp r.sound.0
              pruned
            ∙ ap (retained cutoff) (
                left
                ∙ ap (λ x. some (kept (read_back json) x))
                    (sym (settled-by_rules mod_info now e.marshal id _ f)))
            ∙ retained-unresolved cutoff _ (
                settled_unresolved mod_info now id (view json stable db laws d mod_info.id fp)
                  (cap_evidence e.marshal f)),
      )
