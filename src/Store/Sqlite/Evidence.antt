-- ===== src/Store/Sqlite/Evidence.antt =====
-- The evidence of SQLiteStore as JSON gives it back.
use certlight.Base.{
  ◌≡◌, refl, sym, String, false, Option, none, some, arith, ◌==◌, Result, Result-cases, ok, err,
  inl, inr,
}
use certlight.Core.Value.{Fields}
use certlight.Store.Sqlite.{Row, Json, read_evidence, marshal_evidence}

-- What encoding/json promises: no value is written as the empty text, and what is written reads as a
-- map that is read again as itself.
pub record JsonLaws (json : Json) : Type 0 where
  pub writes : (f : Fields) (b : String) → json.marshal f ≡ ok b → (b == "") ≡ false
  pub stays :
      (f : Fields) (b : String)
      → json.marshal f ≡ ok b
      → (g : Fields) × (json.unmarshal b ≡ ok (some g))
        × ((c : String) → json.marshal g ≡ ok c → json.unmarshal c ≡ ok (some g))

module _ (json : Json) where
  abbrev pub through : Fields → Result String String → Option Fields
  through f (err x) = some f
  through f (ok b) = read_evidence json (some b)

  -- The evidence that comes back for evidence that is stored.
  abbrev pub read_back : Option Fields → Option Fields
  read_back none = none
  read_back (some f) = through f (json.marshal f)

  abbrev pub Stays : Row → Type 0
  Stays r = read_back (read_evidence json r.evidence) ≡ read_evidence json r.evidence

  marshal_evidence-inv :
      (f : Fields) (e : Option String)
      → marshal_evidence json (some f) ≡ ok e
      → (b : String) × (json.marshal f ≡ ok b) × (e ≡ some b)
  marshal_evidence-inv f e h = elim (Result-cases (json.marshal f)) [
    | inl (b, p) ↦ let is : ok (some b) ≡ ok e = rw p at h in (b, p, ground (arith, is))
    | inr (x, p) ↦ absurd (ground (arith, rw p at h))
  ]

  pub read_evidence-marshal_evidence :
      (ev : Option Fields) (e : Option String)
      → marshal_evidence json ev ≡ ok e
      → read_evidence json e ≡ read_back ev
  read_evidence-marshal_evidence none e h =
      let is : none ≡ e = ground (arith, h) in rw (sym is) refl
  read_evidence-marshal_evidence (some f) e h =
      let (b, p, q) = marshal_evidence-inv f e h in rw (p, q) refl

  pub marshalled_stays :
      (laws : JsonLaws json) (ev : Option Fields) (e : Option String)
      → marshal_evidence json ev ≡ ok e
      → read_back (read_evidence json e) ≡ read_evidence json e
  marshalled_stays laws none e h = let is : none ≡ e = ground (arith, h) in rw (sym is) refl
  marshalled_stays laws (some f) e h =
      let (b, p, q) = marshal_evidence-inv f e h in
      let (g, reads, again) = laws.stays f b p in
      let here : read_evidence json e ≡ some g = rw (q, laws.writes f b p, reads) refl in
      rw here (elim (Result-cases (json.marshal g)) [
        | inl (c, w) ↦ rw (w, laws.writes g c w, again c w) refl
        | inr (x, w) ↦ rw w refl
      ])
