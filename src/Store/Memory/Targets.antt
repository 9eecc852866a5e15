-- ===== src/Store/Memory/Targets.antt =====
-- MemStore as a store of targets (store/memory.go).
use certlight.Base.{
  insert, lookup, lookup-insert, ◌≡◌, refl, sym, ◌∙◌, ap, inl, inr, text_cases, text_refl,
  Bool-cases, Option-cases, String, not, ◌&&◌, Option, none, some, List, [], ◌∷◌, map, ◌==◌,
  if◌then◌else◌, ok, arith, ◌||◌, eq_iff, All,
}
use certlight.Store.Memory.{
  MemStore, MemTarget, targets_or_made, targets_of, has_canonical, drop_canonical, append,
  save_target, delete_target, list_saved_targets,
}
use certlight.Store.Targets.{TargetOps, TargetLaws}

abbrev pub deleted : Option MemStore → Option (MemStore × Option String)
deleted none = none
deleted (some m) = some (m, none)

abbrev pub mem_targets : TargetOps MemStore
mem_targets = record {
  save = λ m raw canonical s. (save_target m raw canonical s, none);
  delete = λ m canonical s. deleted (delete_target m canonical s);
  list = λ s m. ok (list_saved_targets s m);
}

abbrev or_empty : Option (List MemTarget) → List MemTarget
or_empty none = []
or_empty (some ts) = ts

targets_of-lookup :
    (s : MemStore) (m : String) → targets_of s m ≡ or_empty (lookup m (targets_or_made s))
unfolding targets_of
targets_of-lookup s m = elim (Option-cases (lookup m (targets_or_made s))) [
  | inl absent ↦ rw (absent, targets_of) refl
  | inr (ts, present) ↦ rw (present, targets_of) refl
]

targets_of-insert :
    (s : MemStore) (m n : String) (ts : List MemTarget)
    → targets_of (record s { targets = some (insert m ts (targets_or_made s)) }) n
      ≡ (if m == n then ts else targets_of s n)
targets_of-insert s m n ts =
    targets_of-lookup (record s { targets = some (insert m ts (targets_or_made s)) }) n
    ∙ ap or_empty (lookup-insert m n ts (targets_or_made s))
    ∙ elim (Bool-cases (m == n)) [
      | inl same ↦ rw same refl
      | inr other ↦ rw other (sym (targets_of-lookup s n))
    ]

save_target-saved :
    (m raw canonical n : String) (s : MemStore)
    → targets_of (save_target m raw canonical s) n ≡ (
        if m == n && not (has_canonical canonical (targets_of s n))
        then append (targets_of s n) (record { raw = raw; canonical = canonical })
        else targets_of s n)
unfolding save_target
save_target-saved m raw canonical n s =
    elim (Bool-cases (has_canonical canonical (targets_of s m))) [
      | inl known ↦
          rw (known, save_target)
            (targets_of-lookup (record s { targets = some (targets_or_made s) }) n
              ∙ sym (targets_of-lookup s n)
              ∙ elim (text_cases m n) [
                | inl same ↦ rw (sym same, known, text_refl m) refl
                | inr other ↦ rw other refl
              ])
      | inr new ↦
          rw (new, save_target)
            (targets_of-insert s m n
                (append (targets_of s m) (record { raw = raw; canonical = canonical }))
              ∙ elim (text_cases m n) [
                | inl same ↦ rw (sym same, new, text_refl m) refl
                | inr other ↦ rw other refl
              ])
    ]

delete_target-saved :
    (m canonical n : String) (s t : MemStore)
    → delete_target m canonical s ≡ some t
    → targets_of t n
      ≡ (if m == n then drop_canonical canonical (targets_of s n) else targets_of s n)
unfolding delete_target
delete_target-saved m canonical n s t h = elim (Option-cases s.targets) [
  | inl nil ↦ absurd (cc (rw (nil, delete_target) at h))
  | inr (ts, made) ↦
      let same : ts ≡ targets_or_made s = rw made refl in
      let is : record s {
        targets = some (insert m (drop_canonical canonical (targets_of s m)) (targets_or_made s));
      }
          ≡ t =
        cc (rw (made, delete_target) at h, same) in
      ap (λ x. targets_of x n) (sym is)
      ∙ targets_of-insert s m n (drop_canonical canonical (targets_of s m))
      ∙ elim (text_cases m n) [ inl eq ↦ rw (sym eq, text_refl m) refl | inr other ↦ rw other refl ]
]

deleted-inv : (o : Option MemStore) (t : MemStore) → deleted o ≡ some (t, none) → o ≡ some t
deleted-inv none t h = cc
deleted-inv (some s) t h = cc

listed :
    (t : MemStore) (m : String) (raws : List String)
    → mem_targets.list t m ≡ ok raws
    → raws ≡ map (λ (x : MemTarget). x.raw) (targets_of t m)
unfolding list_saved_targets
listed t m raws h = cc

-- The view of a MemStore is its list of a module.
pub mem_target_laws : TargetLaws mem_targets
mem_target_laws = record {
  saved = targets_of;
  save-ok = λ m raw canonical n t t' h.
      ap (λ x. targets_of x n) (sym (ap (λ p. p.0) h)) ∙ save_target-saved m raw canonical n t;
  delete-ok = λ m canonical n t t' h.
      delete_target-saved m canonical n t t' (deleted-inv (delete_target m canonical t) t' h);
  list-ok = λ t m raws h. listed t m raws h;
}

pub has_canonical-append :
    (c : String) (ts : List MemTarget) (x : MemTarget)
    → has_canonical c (append ts x) ≡ (has_canonical c ts || x.canonical == c)
unfolding has_canonical
has_canonical-append c [] x = ground arith
has_canonical-append c (t ∷ ts) x = ground (arith, has_canonical-append c ts x)

pub has_canonical-drop_canonical :
    (c gone : String) (ts : List MemTarget)
    → has_canonical c (drop_canonical gone ts) ≡ (not (gone == c) && has_canonical c ts)
unfolding has_canonical drop_canonical
has_canonical-drop_canonical c gone [] = ground arith
has_canonical-drop_canonical c gone (t ∷ ts) = ground (
  arith,
  has_canonical-drop_canonical c gone ts,
  eq_iff t.canonical gone,
  eq_iff t.canonical c,
  eq_iff gone c,
)

module _ (P : MemTarget → Type 0) where
  pub All-append : (ts : List MemTarget) (x : MemTarget) → All P ts → P x → All P (append ts x)
  All-append [] x h p = (p, tt)
  All-append (t ∷ ts) x h p = (h.0, All-append ts x h.1 p)

  pub All-drop_canonical :
      (gone : String) (ts : List MemTarget) → All P ts → All P (drop_canonical gone ts)
  unfolding drop_canonical
  All-drop_canonical gone [] h = tt
  All-drop_canonical gone (t ∷ ts) h = elim (Bool-cases (t.canonical == gone)) [
    | inl is ↦ rw is (All-drop_canonical gone ts h.1)
    | inr other ↦ rw other (h.0, All-drop_canonical gone ts h.1)
  ]
