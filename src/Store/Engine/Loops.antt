-- ===== src/Store/Engine/Loops.antt =====
-- What the two loops of `Reconcile` do to the store, fingerprint by fingerprint.
use mathlib.Core.Path.{subst₂}
use certlight.Base.{
  ℕ, ◌≡◌, refl, sym, ◌∙◌, String, true, false, ◌&&◌, ◌||◌, not, Option, none, some, arith, List, [],
  ◌∷◌, ◌==◌, eq_iff, if◌then◌else◌, contains, text_refl, text_cases, All, map, ◌⊎◌, inl, inr,
  Bool-cases, Option-cases, for_each, for_each-cons-ok, Result-cases, ok, next-eq-ok,
}
use certlight.Core.Finding.{Finding, validate_for_ingest}
use certlight.Core.Collector.{ModuleInfo}
use certlight.Store.Records.{Record, StoreLaws, by_fp, Distinct, kept}
use certlight.Store.Engine.{Engine, Scan, start, cap_evidence, ingest, age_out, reconcile}
use certlight.Store.Engine.Rounds.{is_none, settled, absent}
use certlight.Store.Engine.Rounds.Ingest.{Ingested, ingest-Ingested}
use certlight.Store.Engine.Rounds.Absence.{Aged, age_out-Aged}

-- The valid finding that a scan returned under a fingerprint.
abbrev pub fresh_at : List Finding → String → Option Finding
fresh_at [] fp = none
fresh_at (f ∷ fs) fp =
    if is_none (validate_for_ingest f) && f.fingerprint == fp then some f else fresh_at fs fp

-- No two valid findings of a scan have one fingerprint.
abbrev pub NoRepeat : List Finding → Type 0
NoRepeat [] = Unit
NoRepeat (f ∷ fs) = (validate_for_ingest f ≡ none → fresh_at fs f.fingerprint ≡ none) × NoRepeat fs

not_head :
    (f : Finding) (fs : List Finding) (fp : String) (g : Finding)
    → NoRepeat (f ∷ fs)
    → fresh_at fs fp ≡ some g
    → (is_none (validate_for_ingest f) && f.fingerprint == fp) ≡ false
not_head f fs fp g fresh found = elim (Option-cases (validate_for_ingest f)) [
  | inl valid ↦ let last = fresh.0 valid in rw valid (ground (arith, eq_iff f.fingerprint fp))
  | inr (x, bad) ↦ rw bad
]

fresh_cases :
    (f : Finding) (fs : List Finding) (fp : String) (g : Finding)
    → fresh_at (f ∷ fs) fp ≡ some g
    → ((validate_for_ingest f ≡ none) × (f.fingerprint ≡ fp) × (f ≡ g))
      ⊎ ((is_none (validate_for_ingest f) && f.fingerprint == fp) ≡ false)
fresh_cases f fs fp g found = elim (Option-cases (validate_for_ingest f)) [
  | inl valid ↦ elim (Bool-cases (f.fingerprint == fp)) [
    | inl hit ↦ inl (valid, (eq_iff f.fingerprint fp).0 hit, ground arith)
    | inr miss ↦ inr (rw (valid, miss))
  ]
  | inr (x, bad) ↦ inr (rw bad)
]

abbrev pub fingerprints : List Record → List String
fingerprints = map (λ (r : Record). r.fingerprint)

pub by_fp_missing :
    (rs : List Record) (fp : String) → contains fp (fingerprints rs) ≡ false → by_fp rs fp ≡ none
unfolding by_fp contains
by_fp_missing [] fp h = refl
by_fp_missing (r ∷ rs) fp h = ground (arith, by_fp_missing rs fp)

by_fp_cases :
    (r : Record) (rs : List Record) (fp : String) (x : Record)
    → Distinct (fingerprints (r ∷ rs))
    → by_fp (r ∷ rs) fp ≡ some x
    → ((r.fingerprint ≡ fp) × (r ≡ x)) ⊎ (((r.fingerprint == fp) ≡ false) × (by_fp rs fp ≡ some x))
unfolding by_fp
by_fp_cases r rs fp x d found =
    let last = by_fp_missing rs r.fingerprint d.0 in
    elim (text_cases r.fingerprint fp) [
      | inl hit ↦ inl (hit, ground (arith, text_refl fp))
      | inr miss ↦ inr (miss, ground arith)
    ]

by_fp_later :
    (r : Record) (rs : List Record) (fp : String) (x : Record)
    → Distinct (fingerprints (r ∷ rs))
    → by_fp rs fp ≡ some x
    → ((r.fingerprint == fp) ≡ false) × (by_fp (r ∷ rs) fp ≡ some x)
unfolding by_fp
by_fp_later r rs fp x d found =
    let last = by_fp_missing rs r.fingerprint d.0 in
    (ground (arith, eq_iff r.fingerprint fp), rw found)

module _ {S : Type 0} (e : Engine S) (mod_info : ModuleInfo) (now : ℕ) where
  -- A reconcile without error is a listing and the two loops.
  pub reconcile-inv :
      (target : String) (fresh : List Finding) (s : S) (calls : ℕ) (t : Scan S)
      → reconcile e mod_info now target fresh s calls ≡ (t, none)
      → (existing : List Record) × (mid : Scan S) × (e.store.list_by_target s mod_info.id target
          ≡ ok existing)
        × (for_each (ingest e mod_info now existing) fresh (start s calls) ≡ (mid, none))
        × (for_each (age_out e mod_info now) existing mid ≡ (t, none))
  unfolding reconcile
  reconcile-inv target fresh s calls t done =
      elim (Result-cases (e.store.list_by_target s mod_info.id target)) [
        | inl (existing, listed) ↦
            let (mid, first, second) =
              next-eq-ok (for_each (ingest e mod_info now existing) fresh (start s calls)) _
                (rw (listed, reconcile) at done) in
            (existing, mid, listed, first, second)
        | inr (x, failed) ↦ absurd (ground arith)
      ]

module _ {S : Type 0} (e : Engine S) (laws : StoreLaws e.store) (mod_info : ModuleInfo)
    (now : ℕ) where
  open laws use {IsSound, is_module, view}

  pub record IngestedAll (existing : List Record) (fs : List Finding) (sc t : Scan S) : Type 0 where
    pub sound : IsSound t.store
    pub seen :
        (fp : String) → contains fp t.seen ≡ (contains fp sc.seen || not (is_none (fresh_at fs fp)))
    pub elsewhere :
        (m fp : String)
        → is_module m ≡ true
        → (mod_info.id == m && not (is_none (fresh_at fs fp))) ≡ false
        → view t.store m fp ≡ view sc.store m fp
    pub there :
        (fp : String) (f : Finding)
        → fresh_at fs fp ≡ some f
        → (id : String) × (view t.store mod_info.id fp
            ≡ some (
                kept laws.back
                  (settled mod_info now id (by_fp existing fp) (cap_evidence e.marshal f))))

  pub ingest_all :
      (existing : List Record) (fs : List Finding) (sc t : Scan S)
      → is_module mod_info.id ≡ true
      → IsSound sc.store
      → NoRepeat fs
      → ((fp : String) (f : Finding)
          → fresh_at fs fp ≡ some f
          → by_fp existing fp ≡ view sc.store mod_info.id fp)
      → for_each (ingest e mod_info now existing) fs sc ≡ (t, none)
      → IngestedAll existing fs sc t
  unfolding for_each contains
  ingest_all existing [] sc t p h _ known done =
      let same : t ≡ sc = ground arith in
      record {
        sound = rw same h;
        seen = λ fp. rw same (ground arith);
        elsewhere = λ m fp _ _. rw same;
        there = λ fp f found. cc;
      }
  ingest_all existing (f ∷ fs) sc t p h fresh known done =
      let (mid, first, rest) = for_each-cons-ok (ingest e mod_info now existing) f fs sc done in
      let a : Ingested e laws mod_info now existing f sc mid =
        ingest-Ingested e laws mod_info now existing f sc mid p h
          (λ valid. known f.fingerprint f (rw (valid, text_refl f.fingerprint))) first in
      let b : IngestedAll existing fs mid t =
        ingest_all existing fs mid t p a.sound fresh.1
          (λ fp g found.
            let miss = not_head f fs fp g fresh found in
            known fp g (rw miss found)
            ∙ sym (a.elsewhere mod_info.id fp p (rw text_refl (ground arith))))
          rest in
      record {
        sound = b.sound;
        seen = λ fp. ground (arith, rw a.seen at (b.seen fp));
        elsewhere =
            λ m fp q miss. b.elsewhere m fp q (ground arith) ∙ a.elsewhere m fp q (ground arith);
        there = λ fp g found. elim (fresh_cases f fs fp g found) [
          | inl (valid, at, same) ↦
              let (id, was) = a.there valid in
              let last = fresh.0 valid in
              (
                id,
                cc (
                  b.elsewhere mod_info.id f.fingerprint p (rw last (ground arith)),
                  was,
                  at,
                  same,
                ),
              )
          | inr miss ↦ b.there fp g (rw miss at found)
        ];
      }

  pub record AgedAll (rs : List Record) (sc t : Scan S) : Type 0 where
    pub sound : IsSound t.store
    pub seen : t.seen ≡ sc.seen
    pub elsewhere :
        (m fp : String)
        → is_module m ≡ true
        → (mod_info.id == m && not (is_none (by_fp rs fp))) ≡ false
        → view t.store m fp ≡ view sc.store m fp
    pub there :
        (fp : String) (r : Record)
        → by_fp rs fp ≡ some r
        → view t.store mod_info.id fp ≡ (
            if contains fp sc.seen
            then view sc.store mod_info.id fp
            else some (absent mod_info now r))

  pub for_each-age_out :
      (rs : List Record) (sc t : Scan S)
      → is_module mod_info.id ≡ true
      → IsSound sc.store
      → Distinct (fingerprints rs)
      → All (λ (r : Record). r.module_id ≡ mod_info.id) rs
      → ((fp : String) (r : Record)
          → by_fp rs fp ≡ some r
          → contains fp sc.seen ≡ false
          → view sc.store mod_info.id fp ≡ some r)
      → for_each (age_out e mod_info now) rs sc ≡ (t, none)
      → AgedAll rs sc t
  unfolding for_each by_fp
  for_each-age_out [] sc t p h d own stands done =
      let same : t ≡ sc = ground arith in
      record {
        sound = rw same h;
        seen = rw same;
        elsewhere = λ m fp _ _. rw same;
        there = λ fp r found. cc;
      }
  for_each-age_out (r ∷ rs) sc t p h d own stands done =
      let (mid, first, rest) = for_each-cons-ok (age_out e mod_info now) r rs sc done in
      let last = by_fp_missing rs r.fingerprint d.0 in
      let a : Aged e laws mod_info now r sc mid =
        age_out-Aged e laws mod_info now r sc mid p h own.0
          (stands r.fingerprint r (ground (arith, text_refl r.fingerprint))) first in
      let b : AgedAll rs mid t =
        for_each-age_out rs mid t p a.sound d.1 own.1
          (λ fp x found unseen.
            let (miss, there) = by_fp_later r rs fp x d found in
            a.elsewhere mod_info.id fp p (rw miss (ground arith))
            ∙ stands fp x there (rw a.seen at unseen))
          rest in
      record {
        sound = b.sound;
        seen = b.seen ∙ a.seen;
        elsewhere =
            λ m fp q miss. b.elsewhere m fp q (ground arith) ∙ a.elsewhere m fp q (ground arith);
        there = λ fp x found. elim (by_fp_cases r rs fp x d found) [
          | inl (hit, same) ↦
              subst₂
                (λ (k : String) (y : Record). view t.store mod_info.id k ≡ (
                  if contains k sc.seen
                  then view sc.store mod_info.id k
                  else some (absent mod_info now y)))
                hit same
                (b.elsewhere mod_info.id r.fingerprint p (rw last (ground arith)) ∙ a.there)
          | inr (miss, later) ↦
              rw (b.there fp x later, a.seen, a.elsewhere mod_info.id fp p (rw miss (ground arith)))
        ];
      }
