-- ===== src/Store/Engine/Rounds/Writes.antt =====
-- A write of the engine, seen through the laws of the store.
use mathlib.Core.Path.{subst₂}
use certlight.Base.{
  ℕ, ◌≡◌, sym, ◌∙◌, ap, String, true, ◌&&◌, Option, none, some, ◌==◌, if◌then◌else◌,
}
use certlight.Core.Collector.{ModuleInfo}
use certlight.Store.Records.{Record, StoreLaws, Fits, kept}
use certlight.Store.Engine.{Engine, Scan, save}

module _ {S : Type 0} (e : Engine S) (laws : StoreLaws e.store) (mod_info : ModuleInfo)
    (now : ℕ) where
  open laws use {IsSound, is_module, view}

  -- A successful write puts the record, as the store keeps it, at its key `k`, and nothing else changes.
  pub record Writes (k : String) (r : Record) (s t : S) : Type 0 where
    pub sound : IsSound t
    pub there :
        (m f : String)
        → is_module m ≡ true
        → view t m f ≡ (if mod_info.id == m && k == f then some (kept laws.back r) else view s m f)

  pub save-Writes :
      (r : Record) (k : String) (sc t : Scan S)
      → r.module_id ≡ mod_info.id
      → r.fingerprint ≡ k
      → is_module mod_info.id ≡ true
      → IsSound sc.store
      → Fits (view sc.store mod_info.id k) r
      → save e mod_info now r sc ≡ (t, none)
      → Writes k r sc.store t.store × (t.res ≡ sc.res) × (t.seen ≡ sc.seen)
  unfolding save
  save-Writes r k sc t in_module at_key p h fits done =
      let left : t ≡ record sc { store = (e.store.upsert r sc.store).0 } =
        sym (ap (λ (x : Scan S × Option String). x.0) done) in
      let q : is_module r.module_id ≡ true = ap is_module in_module ∙ p in
      let fits' : Fits (view sc.store r.module_id r.fingerprint) r =
        subst₂ (λ a b. Fits (view sc.store a b) r) (sym in_module) (sym at_key) fits in
      let there = λ (m f : String) (o : is_module m ≡ true).
        subst₂
          (λ a b.
            view (e.store.upsert r sc.store).0 m f
            ≡ (if a == m && b == f then some (kept laws.back r) else view sc.store m f))
          in_module at_key
          (laws.view-upsert r sc.store m f h q o fits'
            (ap (λ (x : Scan S × Option String). x.1) done)) in
      (
        record {
          sound = rw left (laws.upsert-IsSound r sc.store q h);
          there = λ m f o. rw left (there m f o);
        },
        rw left,
        rw left,
      )
