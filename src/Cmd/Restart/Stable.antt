-- ===== src/Cmd/Restart/Stable.antt =====
-- A target's input is what was typed, so it is validated again as itself (certlight/collector.go).
use certlight.Base.{
  ◌≡◌, refl, sym, ◌∙◌, ap, inl, inr, Bool-cases, Option-cases, String, ◌==◌, ltb, ok, ok-inv,
}
use certlight.Core.Collector.{Target}
use certlight.License.Words.{trim_space}
use certlight.Collector.Connection.{Library, count_of, target_at, validate_target, describe}
use certlight.Sched.Registry.{Collector}
use certlight.Cmd.Restart.{IsStable}

-- CertLight as the scheduler sees it.
abbrev pub cert_light : Library → Collector
cert_light lib = record { describe = describe; validate_target = validate_target lib }

target_at-raw :
    (lib : Library) (raw host port : String) (t : Target)
    → target_at lib raw host port ≡ ok t
    → t.raw ≡ raw
target_at-raw lib raw host port t h = elim (Bool-cases (host == "")) [
  | inl empty ↦ absurd (cc (rw empty at h))
  | inr given ↦ ap (λ x. x.raw) (sym (ok-inv _ t (rw given at h)))
]

-- The input of a target is the text that was typed.
validate_target-raw :
    (lib : Library) (raw : String) (t : Target) → validate_target lib raw ≡ ok t → t.raw ≡ raw
unfolding validate_target
validate_target-raw lib raw t h = elim (Bool-cases (trim_space raw == "")) [
  | inl empty ↦ absurd (cc (rw empty at h))
  | inr given ↦ elim (Bool-cases (ltb 0 (count_of 47 (trim_space raw)))) [
    | inl slash ↦ absurd (cc (rw (given, slash) at h))
    | inr plain ↦ elim (Option-cases (lib.split_host_port (trim_space raw))) [
      | inl whole ↦ elim (Bool-cases (ltb 1 (count_of 58 (trim_space raw)))) [
        | inl bare ↦ absurd (cc (rw (given, plain, whole, bare) at h))
        | inr one ↦
            target_at-raw lib raw (trim_space raw) "443" t (rw (given, plain, whole, one) at h)
      ]
      | inr ((host, port), split) ↦
          target_at-raw lib raw host port t (rw (given, plain, split) at h)
    ]
  ]
]

pub cert_light-IsStable : (lib : Library) → IsStable (cert_light lib)
cert_light-IsStable lib raw t h =
    (t, ap (validate_target lib) (validate_target-raw lib raw t h) ∙ h, refl)
