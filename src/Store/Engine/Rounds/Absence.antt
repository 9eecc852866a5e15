-- ===== src/Store/Engine/Rounds/Absence.antt =====
-- One round of the loop over the known records.
use certlight.Base.{
  ℕ, ◌≡◌, ◌∙◌, String, true, false, ◌&&◌, ◌||◌, none, some, arith, ◌==◌, if◌then◌else◌, contains,
  text_refl, inl, inr, Bool-cases,
}
use certlight.Core.Collector.{ModuleInfo}
use certlight.Store.Records.{Record, StoreLaws, kept_same}
use certlight.Store.Engine.{Engine, Scan, is_settled, age, age_out}
use certlight.Store.Engine.Rounds.{absent, age_evidence, age_keeps, aged_write, aged_skip}
use certlight.Store.Engine.Rounds.Writes.{save-Writes}

module _ {S : Type 0} (e : Engine S) (laws : StoreLaws e.store) (mod_info : ModuleInfo)
    (now : ℕ) where
  open laws use {IsSound, is_module, view}

  -- What a round over `existing` does: a record that was not seen gets one more absence.
  pub record Aged (r : Record) (sc t : Scan S) : Type 0 where
    pub sound : IsSound t.store
    pub seen : t.seen ≡ sc.seen
    pub elsewhere :
        (m fp : String)
        → is_module m ≡ true
        → (mod_info.id == m && r.fingerprint == fp) ≡ false
        → view t.store m fp ≡ view sc.store m fp
    pub there : view t.store mod_info.id r.fingerprint ≡ (
        if contains r.fingerprint sc.seen
        then view sc.store mod_info.id r.fingerprint
        else some (absent mod_info now r))

  Aged-skip :
      (r : Record) (sc t : Scan S)
      → IsSound sc.store
      → t ≡ sc
      → (contains r.fingerprint sc.seen || is_settled r.status) ≡ true
      → (contains r.fingerprint sc.seen ≡ false → view sc.store mod_info.id r.fingerprint ≡ some r)
      → Aged r sc t
  Aged-skip r sc t h same skip stands = record {
    sound = rw same h;
    seen = rw same;
    elsewhere = λ m fp q miss. rw same;
    there = rw same (ground (arith, stands));
  }

  pub age_out-Aged :
      (r : Record) (sc t : Scan S)
      → is_module mod_info.id ≡ true
      → IsSound sc.store
      → r.module_id ≡ mod_info.id
      → (contains r.fingerprint sc.seen ≡ false → view sc.store mod_info.id r.fingerprint ≡ some r)
      → age_out e mod_info now r sc ≡ (t, none)
      → Aged r sc t
  age_out-Aged r sc t p h own stands done =
      elim (Bool-cases (contains r.fingerprint sc.seen || is_settled r.status)) [
        | inl skip ↦ Aged-skip r sc t h (aged_skip e mod_info now r sc t skip done) skip stands
        | inr no_skip ↦
            let unseen : contains r.fingerprint sc.seen ≡ false = ground arith in
            let active : is_settled r.status ≡ false = ground arith in
            let (from, saved, e1, e2) = aged_write e mod_info now r sc t unseen active done in
            let (fits, in_module, at_key) = age_keeps mod_info now r in
            let (w, _, seen) =
              save-Writes e laws mod_info now (age mod_info now r) r.fingerprint from t
                (in_module ∙ own) at_key p (rw e1 h) (rw (e1, stands unseen) fits) saved in
            record {
              sound = w.sound;
              seen = seen ∙ e2;
              elsewhere = λ m fp q miss. rw (w.there m fp q, miss, e1);
              there =
                  rw
                    (
                      w.there mod_info.id r.fingerprint p,
                      kept_same laws.back (age mod_info now r) (
                          age_evidence mod_info now laws.back r (
                            laws.view_kept sc.store mod_info.id r.fingerprint r h p
                              (stands unseen))),
                      unseen,
                      active,
                    )
                    (rw (text_refl mod_info.id, text_refl r.fingerprint));
            }
      ]
