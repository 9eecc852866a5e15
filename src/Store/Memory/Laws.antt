-- ===== src/Store/Memory/Laws.antt =====
-- MemStore keeps the laws of a store: below a module id without NUL it is a map from module and
-- fingerprint to records.
use certlight.Base.{
  lookup, lookup-insert, lookup-without, without, ◌≡◌, refl, String, Bool, true, false, ◌&&◌,
  Option, none, some, arith, List, [], ◌∷◌, map, ◌==◌, eq_iff, if◌then◌else◌, ok, contains,
  text_refl,
}
use certlight.Store.Records.{Record, StoreLaws, by_fp, at_target, Distinct}
use certlight.Store.Memory.{MemStore, mem_ops, key, select, list_by_target, upsert, get}
use certlight.Store.Memory.Keys.{no_nul, key-eq}

abbrev pub of_module_at : String → String → Record → Bool
of_module_at m t r = r.module_id == m && r.target == t

-- Every entry stands at its record's key, once, under a module without NUL.
abbrev pub IsKeyed : List (String × Record) → Type 0
IsKeyed [] = Unit
IsKeyed ((k, r) ∷ m) =
    (k ≡ key r.module_id r.fingerprint)
    × (no_nul r.module_id ≡ true)
    × (lookup k m ≡ none)
    × IsKeyed m

IsKeyed-without : (k : String) (m : List (String × Record)) → IsKeyed m → IsKeyed (without k m)
unfolding without
IsKeyed-without k [] h = tt
IsKeyed-without k ((j, r) ∷ m) h = ground (arith, IsKeyed-without k m h.3, lookup-without k j m)

pub lookup-keys :
    (m f : String) (l : List (String × Record)) (r : Record)
    → IsKeyed l
    → no_nul m ≡ true
    → lookup (key m f) l ≡ some r
    → (r.module_id ≡ m) × (r.fingerprint ≡ f)
unfolding lookup
lookup-keys m f [] r h p e = cc
lookup-keys m f ((k, x) ∷ l) r h p e = ground (
  arith,
  lookup-keys m f l r h.3 p,
  key-eq x.module_id m x.fingerprint f h.1 p,
  eq_iff x.module_id m,
  eq_iff x.fingerprint f,
)

pub by_fp-select :
    (m t f : String) (l : List (String × Record))
    → IsKeyed l
    → no_nul m ≡ true
    → by_fp (select (of_module_at m t) l) f ≡ at_target t (lookup (key m f) l)
unfolding by_fp select lookup
by_fp-select m t f [] h p = refl
by_fp-select m t f ((k, r) ∷ l) h p = ground (
  arith,
  by_fp-select m t f l h.3 p,
  key-eq r.module_id m r.fingerprint f h.1 p,
  eq_iff k (key m f),
)

contains-by_fp :
    (rs : List Record) (f : String)
    → by_fp rs f ≡ none
    → contains f (map (λ (r : Record). r.fingerprint) rs) ≡ false
unfolding by_fp contains
contains-by_fp [] f h = refl
contains-by_fp (r ∷ rs) f h = ground (arith, contains-by_fp rs f)

pub select-Distinct :
    (m t : String) (l : List (String × Record))
    → IsKeyed l
    → no_nul m ≡ true
    → Distinct (map (λ (r : Record). r.fingerprint) (select (of_module_at m t) l))
unfolding select
select-Distinct m t [] h p = tt
select-Distinct m t ((k, r) ∷ l) h p = ground (
  arith,
  select-Distinct m t l h.3 p,
  by_fp-select m t r.fingerprint l h.3 p,
  contains-by_fp (select (of_module_at m t) l) r.fingerprint,
  eq_iff r.module_id m,
)

pub upsert-IsKeyed :
    (r : Record) (s : MemStore)
    → no_nul r.module_id ≡ true
    → IsKeyed s.recs
    → IsKeyed (upsert r s).0.recs
unfolding upsert
upsert-IsKeyed r s p h =
    let k = key r.module_id r.fingerprint in
    (refl, p, rw (lookup-without k k s.recs, text_refl k), IsKeyed-without k s.recs h)

pub lookup-upsert :
    (r : Record) (s : MemStore) (m f : String)
    → no_nul r.module_id ≡ true
    → no_nul m ≡ true
    → lookup (key m f) (upsert r s).0.recs
      ≡ (if r.module_id == m && r.fingerprint == f then some r else lookup (key m f) s.recs)
unfolding upsert
lookup-upsert r s m f p q =
    rw (lookup-insert (key r.module_id r.fingerprint) (key m f) r s.recs)
      (rw (key-eq r.module_id m r.fingerprint f p q))

pub upsert_never_fails :
    (r : Record) (s : MemStore) (m f x : String)
    → (upsert r s).1 ≡ some x
    → lookup (key m f) (upsert r s).0.recs ≡ lookup (key m f) s.recs
unfolding upsert
upsert_never_fails r s m f x h = cc

pub get-lookup :
    (s : MemStore) (m f : String) (o : Option Record)
    → get s m f ≡ ok o
    → o ≡ lookup (key m f) s.recs
unfolding get
get-lookup s m f o h = cc

pub listed :
    (s : MemStore) (m t : String) (rs : List Record)
    → list_by_target s m t ≡ ok rs
    → rs ≡ select (of_module_at m t) s.recs
unfolding list_by_target
listed s m t rs h = cc

-- The MemStore is a store.
abbrev pub mem_laws : StoreLaws mem_ops
mem_laws = record {
  IsSound = λ s. IsKeyed s.recs;
  is_module = no_nul;
  view = λ s m f. lookup (key m f) s.recs;
  back = λ evidence. evidence;
  view_kept = λ s m f r h p e. refl;
  view_keys = λ s m f r h p e. lookup-keys m f s.recs r h p e;
  upsert-IsSound = upsert-IsKeyed;
  view-upsert = λ r s m f h p q fits done. lookup-upsert r s m f p q;
  view-upsert_failed = upsert_never_fails;
  get-view = λ s m f o h p e. get-lookup s m f o e;
  list-view = λ s m t f rs h p e. rw (listed s m t rs e) (by_fp-select m t f s.recs h p);
  list-Distinct = λ s m t rs h p e. rw (listed s m t rs e) (select-Distinct m t s.recs h p);
}
