-- ===== src/Web/Ai/Gate.antt =====
-- What must hold before a finding leaves for the AI client.
use certlight.Base.{
  ◌≡◌, refl, String, true, Option, none, some, Option-cases, ◌==◌, Result, ok, err, Bool-cases, inl,
  inr, arith,
}
use certlight.License.Tier.{Tier}
use certlight.License.Words.{trim_space}
use certlight.Store.Records.{Record, StoreOps}
use certlight.Web.Ai.{
  AiAssist, AiLibrary, is_paid, ai_refusal, core_finding, narrated, explain_with, explain_found,
  handle_explain_finding,
}

module _ {K P : Type 0} (lib : AiLibrary K P) where
  -- Why a packet may leave, and what it holds.
  pub record Released (ai : Option (AiAssist K)) (tier : Tier) (m : String) (r : Record)
      (packet : P) : Type 0 where
    pub assist : AiAssist K
    pub is_on : ai ≡ some assist
    pub paid : assist.keyed ≡ true → is_paid lib tier ≡ true
    pub holds : lib.new_packet m assist.language (core_finding lib m r) ≡ ok packet

  ai_refusal-none :
      (a : AiAssist K) (tier : Tier)
      → ai_refusal lib (some a) tier ≡ none
      → a.keyed ≡ true
      → is_paid lib tier ≡ true
  unfolding ai_refusal
  ai_refusal-none a tier h keyed = elim (Bool-cases (is_paid lib tier)) [
    | inl paid ↦ paid
    | inr unpaid ↦ absurd (ground (arith, rw (keyed, unpaid, ai_refusal) at h))
  ]

  narrated-packet :
      (a : AiAssist K) (q : Result String P) (packet : P)
      → (narrated lib a q).0 ≡ some packet
      → q ≡ ok packet
  narrated-packet a (err x) packet h = cc
  narrated-packet a (ok p) packet h = ground (arith, h)

  explain_with-Released :
      (ai : Option (AiAssist K)) (tier : Tier) (m : String) (r : Record) (packet : P)
      → (explain_with lib ai (ai_refusal lib ai tier) m r).0 ≡ some packet
      → Released ai tier m r packet
  explain_with-Released none tier m r packet h = elim (Option-cases (ai_refusal lib none tier)) [
    | inl allowed ↦ absurd (ground (arith, rw allowed at h))
    | inr (reason, denied) ↦ absurd (ground (arith, rw denied at h))
  ]
  explain_with-Released (some a) tier m r packet h =
      elim (Option-cases (ai_refusal lib (some a) tier)) [
        | inl allowed ↦ record {
          assist = a;
          is_on = refl;
          paid = ai_refusal-none a tier allowed;
          holds = narrated-packet a _ packet (rw allowed at h);
        }
        | inr (reason, denied) ↦ absurd (ground (arith, rw denied at h))
      ]

  explain_found-Released :
      (ai : Option (AiAssist K)) (tier : Tier) (m : String) (q : Result String (Option Record))
      (packet : P)
      → (explain_found lib ai tier m q).0 ≡ some packet
      → (r : Record) × (q ≡ ok (some r)) × Released ai tier m r packet
  explain_found-Released ai tier m (err x) packet h = cc
  explain_found-Released ai tier m (ok none) packet h = cc
  explain_found-Released ai tier m (ok (some r)) packet h =
      (r, refl, explain_with-Released ai tier m r packet h)

  -- A packet leaves for the AI client only where AI Assist is on, its endpoint needs no key or the
  -- tier is Pro or Team, and it is that of the finding that the store holds under the request's
  -- fingerprint.
  pub handle_explain_finding-Released :
      {S : Type 0} (store : StoreOps S) (ai : Option (AiAssist K)) (tier : Tier) (m fp : String)
      (s : S) (packet : P)
      → (handle_explain_finding lib store ai tier m (some fp) s).0 ≡ some packet
      → (r : Record) × (store.get s m fp ≡ ok (some r)) × Released ai tier m r packet
  unfolding handle_explain_finding
  handle_explain_finding-Released store ai tier m fp s packet h =
      elim (Bool-cases (trim_space fp == "")) [
        | inl blank ↦ absurd (ground (arith, rw blank at h))
        | inr named ↦ explain_found-Released ai tier m (store.get s m fp) packet (rw named at h)
      ]
