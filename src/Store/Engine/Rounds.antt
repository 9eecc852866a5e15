-- ===== src/Store/Engine/Rounds.antt =====
-- One round of each loop of `Reconcile`: the record that it writes.
pub mod Writes
pub mod Ingest
pub mod Absence
use mathlib.Core.Path.{subst₂}
use certlight.Base.{
  ℕ, ◌≡◌, refl, sym, ◌∙◌, ap, String, Bool, true, false, ◌&&◌, ◌||◌, Option, none, some, arith,
  List, [], ◌∷◌, map, ◌==◌, eq_iff, if◌then◌else◌, ok, err, contains, text_refl, text_cases, inl,
  inr, Result-cases, next-eq-ok, Bool-cases, Option-cases,
}
use certlight.Core.Finding.{Finding, IngestError, validate_for_ingest}
use certlight.Core.Collector.{ModuleInfo}
use certlight.Core.Value.{Fields}
use certlight.Store.Records.{Record, StoreLaws, by_fp, Fits}
use certlight.Store.Engine.{
  Engine, Scan, cap_evidence, is_settled, open_record, refresh, age, save, draw_id, ingest_new,
  ingest_known, ingest_valid, ingest, age_out, reaches_threshold, push_resolved,
}

abbrev pub is_none {ℓ} : {A : Type ℓ} → Option A → Bool
is_none none = true
is_none (some _) = false

pub cap_evidence-fingerprint :
    {S : Type 0} (e : Engine S) (f : Finding)
    → (cap_evidence e.marshal f).fingerprint ≡ f.fingerprint
unfolding cap_evidence
cap_evidence-fingerprint e f = ground arith

module _ (mod_info : ModuleInfo) (now : ℕ) where
  -- The record that a fresh finding leaves: the known one refreshed, or a new one.
  abbrev pub settled : String → Option Record → Finding → Record
  settled id none f = open_record mod_info now id f
  settled id (some prev) f = refresh mod_info now prev f

  -- The record that an absence leaves.
  abbrev pub absent : Record → Record
  absent r = if is_settled r.status then r else age mod_info now r

  pub refresh_keeps :
      (prev : Record) (f : Finding)
      → let r = refresh mod_info now prev f in
        Fits (some prev) r × (r.module_id ≡ prev.module_id) × (r.fingerprint ≡ prev.fingerprint)
  unfolding refresh
  refresh_keeps prev f = ground arith

  pub age_keeps :
      (prev : Record)
      → let r = age mod_info now prev in
        Fits (some prev) r × (r.module_id ≡ prev.module_id) × (r.fingerprint ≡ prev.fingerprint)
  unfolding age
  age_keeps prev = ground arith

  -- An absence leaves the evidence, so what holds of it stays true.
  pub age_evidence :
      (back : Option Fields → Option Fields) (r : Record)
      → back r.evidence ≡ r.evidence
      → back (age mod_info now r).evidence ≡ (age mod_info now r).evidence
  unfolding age
  age_evidence back r same = elim (Bool-cases (reaches_threshold mod_info now r)) [
    | inl p ↦ rw p same
    | inr p ↦ rw p same
  ]

  pub open_record_keys :
      (id : String) (f : Finding)
      → let r = open_record mod_info now id f in
        (r.module_id ≡ mod_info.id) × (r.fingerprint ≡ f.fingerprint)
  unfolding open_record
  open_record_keys id f = (refl, refl)

module _ (mod_info : ModuleInfo) (now : ℕ) where
  pub settled_keys :
      (id k : String) (o : Option Record) (g : Finding)
      → ((r : Record) → o ≡ some r → (r.module_id ≡ mod_info.id) × (r.fingerprint ≡ k))
      → g.fingerprint ≡ k
      → let r = settled mod_info now id o g in
        (r.module_id ≡ mod_info.id) × (r.fingerprint ≡ k) × Fits o r
  settled_keys id k none g h e = let (a, b) = open_record_keys mod_info now id g in (a, b ∙ e, tt)
  settled_keys id k (some prev) g h e =
      let (fits, a, b) = refresh_keeps mod_info now prev g in
      let (c, d) = h prev refl in (a ∙ c, b ∙ d, fits)

module _ {S : Type 0} (e : Engine S) (mod_info : ModuleInfo) (now : ℕ) where
  -- A successful round that inserts or refreshes is one write.
  pub ingest_valid-inv :
      (o : Option Record) (g : Finding) (sc t : Scan S)
      → ingest_valid e mod_info now o g sc ≡ (t, none)
      → (id : String) × (from mid : Scan S) × (save e mod_info now
            (settled mod_info now id o g)
            from
          ≡ (mid, none))
        × (from.store ≡ sc.store)
        × (from.seen ≡ sc.seen)
        × (t.store ≡ mid.store)
        × (t.seen ≡ mid.seen)
  unfolding ingest_new draw_id ingest_known
  ingest_valid-inv none g sc t h = elim (Result-cases (e.new_id sc.calls now)) [
    | inl (id, p) ↦
        let from : Scan S = (draw_id e mod_info now sc).0 in
        let (mid, q, r) =
          next-eq-ok (save e mod_info now (open_record mod_info now id g) from) _
            (rw (p, ingest_new) at h) in
        (id, from, mid, q, refl, refl, ground arith, ground arith)
    | inr (x, p) ↦ absurd (ground arith)
  ]
  ingest_valid-inv (some prev) g sc t h =
      let (mid, q, r) = next-eq-ok (save e mod_info now (refresh mod_info now prev g) sc) _ h in
      ("", sc, mid, q, refl, refl, ground arith, ground arith)

  pub ingest_accepted :
      (existing : List Record) (f : Finding) (sc t : Scan S)
      → validate_for_ingest f ≡ none
      → ingest e mod_info now existing f sc ≡ (t, none)
      → ingest_valid e mod_info now
          (by_fp existing f.fingerprint)
          (cap_evidence e.marshal f)
          (record sc { seen = f.fingerprint ∷ sc.seen })
        ≡ (t, none)
  unfolding ingest cap_evidence
  ingest_accepted existing f sc t valid done =
      rw (cap_evidence-fingerprint e f) at (rw (valid, ingest) at done)

  pub ingest_rejected :
      (existing : List Record) (f : Finding) (sc t : Scan S) (x : IngestError)
      → validate_for_ingest f ≡ some x
      → ingest e mod_info now existing f sc ≡ (t, none)
      → (t.store ≡ sc.store) × (t.seen ≡ sc.seen)
  unfolding ingest
  ingest_rejected existing f sc t x bad done = ground arith

  pub aged_write :
      (r : Record) (sc t : Scan S)
      → contains r.fingerprint sc.seen ≡ false
      → is_settled r.status ≡ false
      → age_out e mod_info now r sc ≡ (t, none)
      → (from : Scan S) × (save e mod_info now (age mod_info now r) from ≡ (t, none))
        × (from.store ≡ sc.store)
        × (from.seen ≡ sc.seen)
  unfolding age_out
  aged_write r sc t p q h = (
    (if reaches_threshold mod_info now r
        then push_resolved (age mod_info now r).finding sc
        else sc),
    rw (p, q) at h,
    ground arith,
    ground arith,
  )

  pub aged_skip :
      (r : Record) (sc t : Scan S)
      → (contains r.fingerprint sc.seen || is_settled r.status) ≡ true
      → age_out e mod_info now r sc ≡ (t, none)
      → t ≡ sc
  unfolding age_out
  aged_skip r sc t p h = ground arith

  pub save_seen :
      (r : Record) (sc t : Scan S) → save e mod_info now r sc ≡ (t, none) → t.seen ≡ sc.seen
  unfolding save
  save_seen r sc t done = ground arith
