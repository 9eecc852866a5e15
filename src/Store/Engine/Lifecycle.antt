-- ===== src/Store/Engine/Lifecycle.antt =====
-- A finding over several scans: when it is resolved, and when it is announced again.
use certlight.Base.{
  ℕ, suc, ◌+◌, ◌<◌, ◌≤◌, ◌≡◌, refl, ◌∙◌, ap, true, false, some, arith, List, [], ◌∷◌, ◌++◌, length,
}
use certlight.Core.Severity.{resolved}
use certlight.Core.Collector.{ModuleInfo, resolve_after_or_default}
use certlight.Store.Records.{Record}
use certlight.Store.Engine.{is_settled, age}
use certlight.Store.Engine.Rounds.{absent}

-- What successive scans at the given times leave of a record that none of them returns.
abbrev pub absences : ModuleInfo → List ℕ → Record → Record
absences mod_info [] r = r
absences mod_info (now ∷ ts) r = absences mod_info ts (absent mod_info now r)

absent_below :
    (mod_info : ModuleInfo) (now : ℕ) (r : Record)
    → is_settled r.status ≡ false
    → suc r.absent_streak < resolve_after_or_default mod_info
    → absent mod_info now r ≡ record r { absent_streak = suc r.absent_streak }
unfolding age
absent_below mod_info now r active h = ground arith

absent_at :
    (mod_info : ModuleInfo) (now : ℕ) (r : Record)
    → is_settled r.status ≡ false
    → resolve_after_or_default mod_info ≤ suc r.absent_streak
    → absent mod_info now r ≡ record {
      finding = record r.finding { status = resolved; resolved_at = some now };
      absent_streak = suc r.absent_streak;
    }
unfolding age
absent_at mod_info now r active h = ground arith

-- Below the threshold a record only counts its absences.
pub absences_below :
    (mod_info : ModuleInfo) (ts : List ℕ) (r : Record)
    → is_settled r.status ≡ false
    → r.absent_streak + length ts < resolve_after_or_default mod_info
    → absences mod_info ts r ≡ record r { absent_streak = r.absent_streak + length ts }
unfolding age
absences_below mod_info [] r active h = ground arith
absences_below mod_info (now ∷ ts) r active h =
    rw (absent_below mod_info now r active (omega arith)) (
      absences_below mod_info ts (record r { absent_streak = suc r.absent_streak }) active
        (omega arith)
      ∙ ap (λ n. record r { absent_streak = n }) (omega arith))

settled_stays :
    (mod_info : ModuleInfo) (ts : List ℕ) (r : Record)
    → is_settled r.status ≡ true
    → absences mod_info ts r ≡ r
settled_stays mod_info [] r h = refl
settled_stays mod_info (now ∷ ts) r h = rw h (settled_stays mod_info ts r h)

absences-append :
    (mod_info : ModuleInfo) (ts us : List ℕ) (r : Record)
    → absences mod_info (ts ++ us) r ≡ absences mod_info us (absences mod_info ts r)
absences-append mod_info [] us r = refl
absences-append mod_info (now ∷ ts) us r = absences-append mod_info ts us (absent mod_info now r)

-- The scan at which the absences reach the threshold resolves the record, at its own time, and
-- later absences change nothing.
pub absences_resolve :
    (mod_info : ModuleInfo) (before after : List ℕ) (now : ℕ) (r : Record)
    → is_settled r.status ≡ false
    → r.absent_streak + length before + 1 ≡ resolve_after_or_default mod_info
    → absences mod_info (before ++ now ∷ after) r ≡ record {
      finding = record r.finding { status = resolved; resolved_at = some now };
      absent_streak = resolve_after_or_default mod_info;
    }
absences_resolve mod_info before after now r active h =
    let n : ℕ = r.absent_streak + length before in
    absences-append mod_info before (now ∷ after) r
    ∙ rw (absences_below mod_info before r active (omega arith)) (
        rw (absent_at mod_info now (record r { absent_streak = n }) active (omega arith)) (
          settled_stays mod_info after _ refl
          ∙ ap
              (λ (k : ℕ). record {
                finding = record r.finding { status = resolved; resolved_at = some now };
                absent_streak = k;
              })
              (omega arith)))
