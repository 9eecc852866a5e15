-- ===== src/Store/Engine/Silence.antt =====
-- A finding that stays is announced once.
use certlight.Base.{
  ℕ, ◌≡◌, refl, sym, ◌∙◌, ap, String, true, false, ◌&&◌, Bool-cases, Option, none, some, arith,
  List, [], ◌∷◌, ◌==◌, text_refl, inl, inr, Option-cases,
}
use certlight.Core.Finding.{Finding, validate_for_ingest}
use certlight.Core.Collector.{ModuleInfo}
use certlight.Store.Records.{Record, StoreLaws, by_fp, at_target, kept}
use certlight.Store.Engine.{
  Engine, Scan, cap_evidence, is_resolved, open_record, refresh, reconcile,
}
use certlight.Store.Engine.Rounds.{settled}
use certlight.Store.Engine.Rules.{settled-by_rules}
use certlight.Store.Engine.Loops.{fresh_at, NoRepeat}
use certlight.Store.Engine.Refinement.{Reconciled, reconcile_refines, at_target_home}
use certlight.Store.Engine.Rounds.{is_none}
use certlight.Store.Engine.Announced.{is_news, announced, resolved-word}
use certlight.Store.Engine.Reports.{reconcile_reports}

-- The findings are all of the target.
abbrev pub OfTarget : String → List Finding → Type 0
OfTarget target [] = Unit
OfTarget target (f ∷ fs) = (f.target ≡ target) × OfTarget target fs

pub fresh_at-target :
    (target : String) (fs : List Finding) (fp : String) (f : Finding)
    → OfTarget target fs
    → fresh_at fs fp ≡ some f
    → f.target ≡ target
fresh_at-target target [] fp f h found = absurd (cc)
fresh_at-target target (g ∷ fs) fp f h found = ground (arith, fresh_at-target target fs fp f h.1)

-- A record that a scan leaves is not resolved.
pub settled_unresolved :
    (mod_info : ModuleInfo) (now : ℕ) (id : String) (o : Option Record) (f : Finding)
    → is_resolved (settled mod_info now id o f).status ≡ false
unfolding open_record refresh
settled_unresolved mod_info now id none f = refl
settled_unresolved mod_info now id (some prev) f = ground arith

settled_target :
    (mod_info : ModuleInfo) (now : ℕ) (target id : String) (o : Option Record) (f : Finding)
    → ((r : Record) → o ≡ some r → r.target ≡ target)
    → f.target ≡ target
    → (settled mod_info now id o f).target ≡ target
unfolding open_record refresh
settled_target mod_info now target id none f h at = at
settled_target mod_info now target id (some prev) f h at = ground (arith, h prev refl)

cap_evidence-target :
    {S : Type 0} (e : Engine S) (f : Finding) → (cap_evidence e.marshal f).target ≡ f.target
unfolding cap_evidence
cap_evidence-target e f = ground arith

fresh_at-cons :
    (f : Finding) (fs : List Finding) (fp : String) (g : Finding)
    → fresh_at fs fp ≡ some g
    → (h : Finding) × (fresh_at (f ∷ fs) fp ≡ some h)
fresh_at-cons f fs fp g found =
    elim (Bool-cases (is_none (validate_for_ingest f) && f.fingerprint == fp)) [
      | inl hit ↦ (f, rw hit)
      | inr miss ↦ (g, rw miss found)
    ]

abbrev pub target_or : String → Option Record → String
target_or t none = t
target_or t (some r) = r.target

-- If no valid finding is news, none is announced.
announced_none :
    {S : Type 0} (e : Engine S) (mod_info : ModuleInfo) (now n : ℕ) (known : String → Option Record)
    (fs : List Finding)
    → ((fp : String) (f : Finding) → fresh_at fs fp ≡ some f → is_news (known fp) ≡ false)
    → announced e mod_info now known n fs ≡ []
announced_none e mod_info now n known [] h = refl
announced_none e mod_info now n known (f ∷ fs) h =
    let rest =
      announced_none e mod_info now n known fs
        (λ fp g found. let (x, q) = fresh_at-cons f fs fp g found in h fp x q) in
    elim (Option-cases (validate_for_ingest f)) [
      | inl valid ↦
          let old = h f.fingerprint f (rw (valid, text_refl f.fingerprint)) in
          elim (Option-cases (known f.fingerprint)) [
            | inl new ↦ absurd (ground (arith, ap is_news new, old))
            | inr (r, at) ↦ rw (valid, at, (ap is_news (sym at) ∙ old)) rest
          ]
      | inr (x, bad) ↦ rw bad rest
    ]

module _ {S : Type 0} (e : Engine S) (laws : StoreLaws e.store) (mod_info : ModuleInfo) where
  open laws use {IsSound, is_module, view}

  -- After a scan without error of findings that are all of the target, whose fingerprints do not repeat
  -- and are known only of the target, the next scan of it with the same findings, if it has no error,
  -- announces nothing.
  pub announced_once :
      (target : String) (fresh : List Finding) (now later : ℕ) (s : S) (calls calls' : ℕ)
      (t u : Scan S)
      → is_module mod_info.id ≡ true
      → IsSound s
      → NoRepeat fresh
      → OfTarget target fresh
      → ((fp : String) (f : Finding) (r : Record)
          → fresh_at fresh fp ≡ some f
          → view s mod_info.id fp ≡ some r
          → r.target ≡ target)
      → reconcile e mod_info now target fresh s calls ≡ (t, none)
      → reconcile e mod_info later target fresh t.store calls' ≡ (u, none)
      → u.res.newly_open ≡ []
  announced_once target fresh now later s calls calls' t u p h single of_target home first second =
      let r : Reconciled e laws mod_info now target fresh s t.store =
        reconcile_refines e laws mod_info now target fresh s calls t p h single home first in
      let (existing, listed, opened, _, _) =
        reconcile_reports e mod_info later target fresh t.store calls' u second in
      opened
      ∙ announced_none e mod_info later calls' (by_fp existing) fresh (λ fp f found.
        let (id, there) = r.reported fp f found in
        let left =
          there
          ∙ ap (λ x. some (kept laws.back x))
              (sym (settled-by_rules mod_info now e.marshal id (view s mod_info.id fp) f)) in
        let x : Record =
          kept laws.back
            (settled mod_info now id (view s mod_info.id fp) (cap_evidence e.marshal f)) in
        let at : x.target ≡ target =
          settled_target mod_info now target id (view s mod_info.id fp) (cap_evidence e.marshal f)
            (λ o q. home fp f o found q)
            (cap_evidence-target e f ∙ fresh_at-target target fresh fp f of_target found) in
        ap is_news (
          laws.list-view t.store mod_info.id target fp existing r.sound p listed
          ∙ ap (at_target target) left
          ∙ at_target_home target (some x)
              (λ y q. ap (λ (o : Option Record). target_or target o) (sym q) ∙ at))
        ∙ sym (resolved-word x.status)
        ∙ settled_unresolved mod_info now id (view s mod_info.id fp) (cap_evidence e.marshal f))
