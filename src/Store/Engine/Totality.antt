-- ===== src/Store/Engine/Totality.antt =====
-- Which failures make `Reconcile` return an error.
use certlight.Base.{
  ℕ, ◌≡◌, refl, ap, String, Option, none, some, arith, List, [], ◌∷◌, Bool-cases, Option-cases, ok,
  err, Stmt, next, contains, for_each, inl, inr,
}
use certlight.Core.Finding.{Finding, validate_for_ingest}
use certlight.Core.Collector.{ModuleInfo}
use certlight.Store.Records.{Record}
use certlight.Store.Engine.{
  Engine, Scan, start, ingest_new, ingest_known, ingest_valid, draw_id, save, ingest, age_out,
  is_settled, reconcile,
}

pub for_each_total :
    {A S : Type 0} (step : A → Stmt S String)
    → ((x : A) (s : S) → (step x s).1 ≡ none)
    → (xs : List A) (s : S) → (for_each step xs s).1 ≡ none
unfolding for_each
for_each_total step total [] s = refl
for_each_total step total (x ∷ xs) s =
    ground (arith, total x s, for_each_total step total xs (step x s).0)

next_total :
    {S : Type 0} (m : S × Option String) (k : Stmt S String)
    → m.1 ≡ none
    → ((s : S) → (k s).1 ≡ none)
    → (next m k).1 ≡ none
next_total (s, none) k h q = q s
next_total (s, some x) k h q = h

module _ {S : Type 0} (e : Engine S) (mod_info : ModuleInfo) (now : ℕ) where
  -- Neither the store nor the id generator fails.
  pub record IsReliable : Type 0 where
    pub lists : (s : S) (m t : String) → (rs : List Record) × (e.store.list_by_target s m t ≡ ok rs)
    pub writes : (r : Record) (s : S) → (e.store.upsert r s).1 ≡ none
    pub draws : (calls : ℕ) → (id : String) × (e.new_id calls now ≡ ok id)

  save_total : IsReliable → (r : Record) (sc : Scan S) → (save e mod_info now r sc).1 ≡ none
  unfolding save
  save_total h r sc = h.writes r sc.store

  ingest_valid_total :
      IsReliable
      → (o : Option Record) (g : Finding) (sc : Scan S)
      → (ingest_valid e mod_info now o g sc).1 ≡ none
  unfolding ingest_new ingest_known draw_id
  ingest_valid_total h none g sc =
      let (id, p) = h.draws sc.calls in
      rw (p, ingest_new) (next_total _ _ (save_total h _ _) (λ s. refl))
  ingest_valid_total h (some prev) g sc = next_total _ _ (save_total h _ sc) (λ s. ground arith)

  ingest_total :
      IsReliable
      → (existing : List Record) (f : Finding) (sc : Scan S)
      → (ingest e mod_info now existing f sc).1 ≡ none
  unfolding ingest
  ingest_total h existing f sc = elim (Option-cases (validate_for_ingest f)) [
    | inl valid ↦ rw (valid, ingest) (ingest_valid_total h _ _ _)
    | inr (x, bad) ↦ rw (bad, ingest)
  ]

  age_out_total : IsReliable → (r : Record) (sc : Scan S) → (age_out e mod_info now r sc).1 ≡ none
  unfolding age_out
  age_out_total h r sc = elim (Bool-cases (contains r.fingerprint sc.seen)) [
    | inl seen ↦ rw (seen, age_out)
    | inr new ↦ elim (Bool-cases (is_settled r.status)) [
      | inl done ↦ rw (new, done, age_out)
      | inr active ↦ rw (new, active, age_out) (save_total h _ _)
    ]
  ]

  -- With a store and a generator that do not fail, `Reconcile` returns no error, whatever the
  -- findings.
  pub reconcile_total :
      IsReliable
      → (target : String) (fresh : List Finding) (s : S) (calls : ℕ)
      → (t : Scan S) × (reconcile e mod_info now target fresh s calls ≡ (t, none))
  unfolding reconcile
  reconcile_total h target fresh s calls =
      let (existing, listed) = h.lists s mod_info.id target in
      let ok : (reconcile e mod_info now target fresh s calls).1 ≡ none =
        rw (listed, reconcile)
          (next_total _ _ (for_each_total _ (ingest_total h existing) fresh (start s calls))
            (for_each_total _ (age_out_total h) existing)) in
      (
        (reconcile e mod_info now target fresh s calls).0,
        ap (λ x. ((reconcile e mod_info now target fresh s calls).0, x)) ok,
      )

  -- A store that cannot list makes `Reconcile` return its error, with nothing done.
  pub reconcile_unlisted :
      (target : String) (fresh : List Finding) (s : S) (calls : ℕ) (x : String)
      → e.store.list_by_target s mod_info.id target ≡ err x
      → reconcile e mod_info now target fresh s calls ≡ (start s calls, some x)
  unfolding reconcile
  reconcile_unlisted target fresh s calls x h = rw (h, reconcile)
