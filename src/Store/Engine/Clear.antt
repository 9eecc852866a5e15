-- ===== src/Store/Engine/Clear.antt =====
-- Successive scans of one target that all miss a finding, whatever else they return.
use certlight.Base.{
  ℕ, ◌⊎◌, ◌≡◌, refl, sym, ◌∙◌, ap, String, true, Option, none, some, Bool-cases, inl, inr,
  Option-cases, arith, List, [], ◌∷◌, ◌==◌, if◌then◌else◌, Stmt, for_each, for_each-cons-ok,
}
use certlight.Core.Finding.{Finding}
use certlight.Core.Value.{Fields}
use certlight.Core.Collector.{ModuleInfo}
use certlight.Store.Records.{Record, StoreLaws}
use certlight.Store.Engine.{Engine, Scan, reconcile}
use certlight.Store.Engine.Rounds.{absent, age_keeps}
use certlight.Store.Engine.Rules.{by_rules, missed, absent-missed}
use certlight.Store.Engine.Refinement.{aged_at, Reconciled, reconcile_refines}
use certlight.Store.Engine.Loops.{fresh_at, NoRepeat}
use certlight.Store.Engine.Silence.{OfTarget, fresh_at-target, target_or}
use certlight.Store.Engine.Lifecycle.{absences}

module _ {S : Type 0} (e : Engine S) (mod_info : ModuleInfo) (target : String) where
  -- One scan at a time, over the store and the number of ids drawn.
  abbrev pub scan : List Finding → ℕ → Stmt (S × ℕ) String
  scan fresh now (s, calls) =
      let (sc, x) = reconcile e mod_info now target fresh s calls in ((sc.store, sc.calls), x)

  -- Scans at their times, with what the collector returned at each.
  unfoldable pub scans : List (ℕ × List Finding) → Stmt (S × ℕ) String
  scans ps s = for_each (λ (p : ℕ × List Finding). scan p.1 p.0) ps s

  abbrev pub absent_at_target : List ℕ → Option Record → Option Record
  absent_at_target ts none = none
  absent_at_target ts (some r) =
      if r.target == target then some (absences mod_info ts r) else some r

  absent_at_none : (o : Option Record) → absent_at_target [] o ≡ o
  absent_at_none none = refl
  absent_at_none (some r) = ground arith

  absent_target : (now : ℕ) (r : Record) → (absent mod_info now r).target ≡ r.target
  absent_target now r = ground (arith, age_keeps mod_info now r)

  -- A scan without error is a reconcile without error.
  pub scan-inv :
      (fresh : List Finding) (now : ℕ) (s t : S × ℕ)
      → scan fresh now s ≡ (t, none)
      → (sc : Scan S) × (reconcile e mod_info now target fresh s.0 s.1 ≡ (sc, none))
        × (t ≡ (sc.store, sc.calls))
  scan-inv fresh now (s, calls) t done =
      let out = reconcile e mod_info now target fresh s calls in
      (
        out.0,
        ap (λ (x : Option String). (out.0, x)) (ap (λ (x : (S × ℕ) × Option String). x.1) done),
        sym (ap (λ (x : (S × ℕ) × Option String). x.0) done),
      )

  pub absent_keeps_target :
      (now : ℕ) (ts : List ℕ) (o : Option Record)
      → absent_at_target ts (aged_at mod_info now target o) ≡ absent_at_target (now ∷ ts) o
  absent_keeps_target now ts none = refl
  absent_keeps_target now ts (some r) =
      rw (sym (absent-missed mod_info now r)) (elim (Bool-cases (r.target == target)) [
        | inl hit ↦ rw (hit, absent_target now r, hit)
        | inr miss ↦ rw (miss, miss)
      ])

abbrev pub times : List (ℕ × List Finding) → List ℕ
times [] = []
times (p ∷ ps) = p.0 ∷ times ps

-- The scans return findings of the target, none twice, and never the fingerprint.
abbrev pub AllMiss : String → String → List (ℕ × List Finding) → Type 0
AllMiss target fp [] = Unit
AllMiss target fp (p ∷ ps) =
    (NoRepeat p.1 × OfTarget target p.1 × (fresh_at p.1 fp ≡ none)) × AllMiss target fp ps

-- One of the scans returns the fingerprint.
abbrev pub Returned : String → List (ℕ × List Finding) → Type 0
Returned k [] = ⊥
Returned k (p ∷ ps) = ((f : Finding) × (fresh_at p.1 k ≡ some f)) ⊎ Returned k ps

missed_target :
    (mod_info : ModuleInfo) (now : ℕ) (r : Record) → (missed mod_info now r).target ≡ r.target
missed_target mod_info now r =
    ap (λ x. x.target) (sym (absent-missed mod_info now r))
    ∙ ground (arith, age_keeps mod_info now r)

aged_at-target :
    (mod_info : ModuleInfo) (now : ℕ) (target : String) (o : Option Record) (x : Record)
    → ((y : Record) → o ≡ some y → y.target ≡ target)
    → aged_at mod_info now target o ≡ some x
    → x.target ≡ target
aged_at-target mod_info now target none x home h = cc
aged_at-target mod_info now target (some y) x home h =
    ground (arith, home y refl, missed_target mod_info now y)

by_rules-target :
    (mod_info : ModuleInfo) (now : ℕ) (marshal : Fields → Option String) (target id : String)
    (o : Option Record) (f : Finding)
    → ((y : Record) → o ≡ some y → y.target ≡ target)
    → f.target ≡ target
    → (by_rules mod_info now marshal id o f).target ≡ target
by_rules-target mod_info now marshal target id none f home at = at
by_rules-target mod_info now marshal target id (some y) f home at = home y refl

module _ {S : Type 0} (e : Engine S) (laws : StoreLaws e.store) (mod_info : ModuleInfo)
    (target : String) where
  open laws use {IsSound, is_module, view}

  -- What the store knows of the fingerprints that the scans return is of the target.
  abbrev pub AtHome : List (ℕ × List Finding) → S → Type 0
  AtHome ps s =
      (k : String) (r : Record) → Returned k ps → view s mod_info.id k ≡ some r → r.target ≡ target

  Reconciled-AtHome :
      (p : ℕ × List Finding) (ps : List (ℕ × List Finding)) (s t : S)
      → OfTarget target p.1
      → AtHome (p ∷ ps) s
      → Reconciled e laws mod_info p.0 target p.1 s t
      → AtHome ps t
  Reconciled-AtHome p ps s t of_target home r k x returned at =
      let before = λ (y : Record). home k y (inr returned) in
      elim (Option-cases (fresh_at p.1 k)) [
        | inl miss ↦
            aged_at-target mod_info p.0 target (view s mod_info.id k) x before
              (sym (r.unreported k miss) ∙ at)
        | inr (f, found) ↦
            let (id, there) = r.reported k f found in
            ap (target_or target) (sym at ∙ there)
            ∙ by_rules-target mod_info p.0 e.marshal target id (view s mod_info.id k) f before
                (fresh_at-target target p.1 k f of_target found)
      ]

  scan_missed :
      (p : ℕ × List Finding) (ps : List (ℕ × List Finding)) (s t : S × ℕ) (fp : String)
      → is_module mod_info.id ≡ true
      → IsSound s.0
      → AllMiss target fp (p ∷ ps)
      → AtHome (p ∷ ps) s.0
      → scan e mod_info target p.1 p.0 s ≡ (t, none)
      → IsSound t.0
        × AtHome ps t.0
        × (view t.0 mod_info.id fp ≡ aged_at mod_info p.0 target (view s.0 mod_info.id fp))
  scan_missed p ps s t fp q h ((single, of_target, miss), more) home done =
      let (sc, ran, left) = scan-inv e mod_info target p.1 p.0 s t done in
      let r : Reconciled e laws mod_info p.0 target p.1 s.0 sc.store =
        reconcile_refines e laws mod_info p.0 target p.1 s.0 s.1 sc q h single
          (λ k f r found at. home k r (inl (f, found)) at) ran in
      (
        rw left r.sound,
        rw left (Reconciled-AtHome p ps s.0 sc.store of_target home r),
        rw left (r.unreported fp miss),
      )

  -- What scans that miss a finding leave of it, if none of them fails.
  pub scans-view :
      (ps : List (ℕ × List Finding)) (s t : S × ℕ) (fp : String)
      → is_module mod_info.id ≡ true
      → IsSound s.0
      → AllMiss target fp ps
      → AtHome ps s.0
      → scans e mod_info target ps s ≡ (t, none)
      → view t.0 mod_info.id fp
        ≡ absent_at_target e mod_info target (times ps) (view s.0 mod_info.id fp)
  unfolding scans for_each
  scans-view [] s t fp q h miss home done =
      ap (λ (x : (S × ℕ) × Option String). view x.0.0 mod_info.id fp) (sym done)
      ∙ sym (absent_at_none e mod_info target (view s.0 mod_info.id fp))
  scans-view (p ∷ ps) s t fp q h miss home done =
      let (mid, first, rest) =
        for_each-cons-ok (λ (p : ℕ × List Finding). scan e mod_info target p.1 p.0) p ps s done in
      let (sound, still, aged) = scan_missed p ps s mid fp q h miss home first in
      scans-view ps mid t fp q sound miss.1 still rest
      ∙ ap (absent_at_target e mod_info target (times ps)) aged
      ∙ absent_keeps_target e mod_info target p.0 (times ps) (view s.0 mod_info.id fp)
