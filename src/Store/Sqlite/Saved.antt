-- ===== src/Store/Sqlite/Saved.antt =====
-- SQLiteStore as a store of targets (store/sqlite.go).
use certlight.Base.{
  ◌≡◌, refl, sym, ◌∙◌, ap, inl, inr, text_cases, text_refl, Bool-cases, String, not, ◌&&◌, eq_iff,
  none, some, List, [], ◌∷◌, map, ◌==◌, if◌then◌else◌, arith,
}
use certlight.Store.Memory.{MemTarget, has_canonical, drop_canonical, append}
use certlight.Store.Sqlite.{Json, Database, save_target, delete_target, list_saved_targets}
use certlight.Store.Sqlite.Tables.{DatabaseLaws, SavedRow, where_row, is_saved, last}
use certlight.Store.Sqlite.Retention.{saved_of, raws_listed}
use certlight.Store.Targets.{TargetOps, TargetLaws}

abbrev strip : SavedRow → MemTarget
strip t = record { raw = t.raw; canonical = t.canonical }

-- The rows of a module.
unfoldable pub own : String → List SavedRow → List MemTarget
own m [] = []
own m (t ∷ ts) = let rest = own m ts in if t.owner == m then strip t ∷ rest else rest

is_saved-own :
    (m canonical : String) (ts : List SavedRow)
    → is_saved m canonical ts ≡ has_canonical canonical (own m ts)
unfolding is_saved own has_canonical
is_saved-own m canonical [] = refl
is_saved-own m canonical (t ∷ ts) = ground (arith, is_saved-own m canonical ts)

own-last :
    (m n raw canonical : String) (ts : List SavedRow)
    → own n (last ts (record { owner = m; raw = raw; canonical = canonical })) ≡ (
        if m == n
        then append (own n ts) (record { raw = raw; canonical = canonical })
        else own n ts)
unfolding own last
own-last m n raw canonical [] = ground arith
own-last m n raw canonical (t ∷ ts) = ground (arith, own-last m n raw canonical ts)

own-where_row :
    (m n canonical : String) (ts : List SavedRow)
    → own n (where_row (λ t. not (t.owner == m && t.canonical == canonical)) ts)
      ≡ (if m == n then drop_canonical canonical (own n ts) else own n ts)
unfolding own where_row drop_canonical
own-where_row m n canonical [] = ground arith
own-where_row m n canonical (t ∷ ts) =
    ground (arith, own-where_row m n canonical ts, eq_iff t.owner m, eq_iff t.owner n, eq_iff m n)

raws-own :
    (m : String) (ts : List SavedRow) → saved_of m ts ≡ map (λ (x : MemTarget). x.raw) (own m ts)
unfolding own saved_of where_row
raws-own m [] = refl
raws-own m (t ∷ ts) = ground (arith, raws-own m ts)

some-inv : {A : Type 0} (a b : A) → some a ≡ some b → a ≡ b
some-inv a b h = cc

module _ (json : Json) {D : Type 0} (db : Database D) where
  abbrev pub sqlite_targets : TargetOps D
  sqlite_targets = record {
    save = save_target json db;
    delete = λ m canonical d. some (delete_target json db m canonical d);
    list = list_saved_targets json db;
  }

  module _ (laws : DatabaseLaws db) where
    save_target-own :
        (m raw canonical n : String) (d d' : D)
        → save_target json db m raw canonical d ≡ (d', none)
        → own n (laws.targets d') ≡ (
            if m == n && not (has_canonical canonical (own n (laws.targets d)))
            then append (own n (laws.targets d)) (record { raw = raw; canonical = canonical })
            else own n (laws.targets d))
    unfolding save_target
    save_target-own m raw canonical n d d' h =
        let wrote = rw h at (laws.add_target-ok m raw canonical d (rw h refl)) in
        ap (own n) wrote ∙ elim (Bool-cases (is_saved m canonical (laws.targets d))) [
          | inl known ↦ rw known (elim (text_cases m n) [
            | inl same ↦
                rw (sym same, text_refl m, sym (is_saved-own m canonical (laws.targets d)), known)
                  refl
            | inr other ↦ rw other refl
          ])
          | inr new ↦ rw new (
              own-last m n raw canonical (laws.targets d) ∙ elim (text_cases m n) [
                | inl same ↦
                    rw (sym same, text_refl m, sym (is_saved-own m canonical (laws.targets d)), new)
                      refl
                | inr other ↦ rw other refl
              ])
        ]

    delete_target-own :
        (m canonical n : String) (d d' : D)
        → delete_target json db m canonical d ≡ (d', none)
        → own n (laws.targets d') ≡ (
            if m == n
            then drop_canonical canonical (own n (laws.targets d))
            else own n (laws.targets d))
    unfolding delete_target
    delete_target-own m canonical n d d' h =
        ap (own n) (rw h at (laws.drop_target-ok m canonical d (rw h refl)))
        ∙ own-where_row m n canonical (laws.targets d)

    -- The view of a database is the rows of a module in the table of targets.
    pub sqlite_target_laws : TargetLaws sqlite_targets
    sqlite_target_laws = record {
      saved = λ d m. own m (laws.targets d);
      save-ok = λ m raw canonical n t t' h. save_target-own m raw canonical n t t' h;
      delete-ok = λ m canonical n t t' h.
          delete_target-own m canonical n t t'
            (some-inv (delete_target json db m canonical t) (t', none) h);
      list-ok = λ t m raws h. raws_listed json db laws t m raws h ∙ raws-own m (laws.targets t);
    }

    pub saved-own : (d : D) (m : String) → sqlite_target_laws.saved d m ≡ own m (laws.targets d)
    unfolding sqlite_target_laws
    saved-own d m = refl
