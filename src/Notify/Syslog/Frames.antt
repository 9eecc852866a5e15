-- ===== src/Notify/Syslog/Frames.antt =====
-- The frames of SyslogChannel: no text of a finding starts a frame of its own, and none is lost.
use Prim.Native.String.{◌++◌}
use mathlib.Core.List
use mathlib.Core.List.{append-nil, append_assoc}
use certlight.Base.{
  ℕ, suc, ◌+◌, ◌*◌, ◌≡◌, refl, sym, ◌∙◌, ap, String, Bool, true, false, Option, Option-cases, none,
  some, ◌⊎◌, List, [], ◌∷◌, map, All, length, length-append, Bool-cases, inl, inr, arith,
}
use certlight.Core.Finding.{Finding}
use certlight.License.Words.{every}
use certlight.Notify.Digest.{Digest, is_nil, is_empty}
use certlight.Notify.Syslog.{
  Host, SyslogChannel, syslog_message, or_else, named_host, facility_of, parts, opened_pri, frame,
  opened_line, resolved_line, lines, write_lines, syslog_send,
}
use certlight.Notify.Syslog.Plain.{
  IsPlain, decimal-IsPlain, concat-IsPlain, sanitize_syslog-IsPlain,
}

-- A text, and the newline that ends it.
abbrev pub IsFrame : String → Type 0
IsFrame line = (body : String) × (line ≡ body ++ "\n") × IsPlain body

All-append {ℓ} :
    {A : Type ℓ} (P : A → Type 0) (xs ys : List A) → All P xs → All P ys → All P (List.◌++◌ xs ys)
All-append P [] ys h k = k
All-append P (x ∷ xs) ys h k = (h.0, All-append P xs ys h.1 k)

All-map :
    (P : String → Type 0) (f : Finding → String) (fs : List Finding)
    → ((x : Finding) → P (f x))
    → All P (map f fs)
All-map P f [] h = tt
All-map P f (x ∷ fs) h = (h x, All-map P f fs h)

length-map : (f : Finding → String) (fs : List Finding) → length (map f fs) ≡ length fs
length-map f [] = refl
length-map f (x ∷ fs) = ap suc (length-map f fs)

is_nil-eq : (fs : List Finding) → is_nil fs ≡ true → fs ≡ []
is_nil-eq [] p = refl
is_nil-eq (f ∷ fs) p = cc

module _ (h : Host) (s : SyslogChannel) where
  frame-IsPlain :
      (d : Digest) (pri : ℕ) (message : String)
      → ((t : ℕ) → IsPlain (h.stamp t))
      → IsPlain (or_else s.hostname (named_host h.os_hostname))
      → IsPlain (or_else s.tag d.module_id)
      → IsPlain message
      → IsPlain (frame h s d pri message)
  unfolding frame every
  frame-IsPlain d pri message stamp host tag plain = concat-IsPlain (parts h s d pri message) (
    refl,
    (
      decimal-IsPlain pri,
      (
        refl,
        (
          stamp _,
          (refl, (host, (refl, (tag, (refl, (decimal-IsPlain h.pid, (refl, (plain, tt)))))))),
        ),
      ),
    ),
  )

  message-IsPlain : (m : String) (f : Finding) (b : Bool) → IsPlain (syslog_message h.is_ip m f b)
  unfolding syslog_message
  message-IsPlain m f b = sanitize_syslog-IsPlain _

  -- Where the stamps, the host's name and the tag are one line each, every finding of the digest gives
  -- exactly one frame, whose only newline is its end, whatever the finding holds.
  pub lines-IsFrame :
      (d : Digest)
      → ((t : ℕ) → IsPlain (h.stamp t))
      → IsPlain (or_else s.hostname (named_host h.os_hostname))
      → IsPlain (or_else s.tag d.module_id)
      → All IsFrame (lines h s d) × (length (lines h s d) ≡ length d.opened + length d.resolved)
  unfolding lines opened_line resolved_line
  lines-IsFrame d stamp host tag = (
    All-append IsFrame (map (opened_line h s d) d.opened) (map (resolved_line h s d) d.resolved)
        (All-map IsFrame (opened_line h s d) d.opened (λ f.
          let message = syslog_message h.is_ip d.module_id f false in
          (
            frame h s d (opened_pri h s f) message,
            refl,
            frame-IsPlain d (opened_pri h s f) message stamp host tag
                (message-IsPlain d.module_id f false),
          )))
        (All-map IsFrame (resolved_line h s d) d.resolved (λ f.
          let message = syslog_message h.is_ip d.module_id f true in
          (
            frame h s d (facility_of h s * 8 + 5) message,
            refl,
            frame-IsPlain d (facility_of h s * 8 + 5) message stamp host tag
                (message-IsPlain d.module_id f true),
          ))),
    length-append (map (opened_line h s d) d.opened) (map (resolved_line h s d) d.resolved) ∙ (λ i.
        length-map (opened_line h s d) d.opened i + length-map (resolved_line h s d) d.resolved i),
  )

  -- The connection takes these lines, one after the other, after those that are done.
  abbrev pub Taken : List String → List String → Type 0
  Taken done [] = Unit
  Taken done (l ∷ ls) = (h.write done l ≡ none) × Taken (List.◌++◌ done (l ∷ [])) ls

  -- It takes those before `l`, and refuses `l`.
  abbrev pub Refused : List String → List String → Option String → Type 0
  Refused all sent error =
      (l : String) × (rest : List String) × (x : String) × (all ≡ List.◌++◌ sent (l ∷ rest))
      × Taken [] sent
      × (h.write sent l ≡ some x)
      × (error ≡ some x)

  Taken-last :
      (before done : List String) (l : String)
      → Taken before done
      → h.write (List.◌++◌ before done) l ≡ none
      → Taken before (List.◌++◌ done (l ∷ []))
  Taken-last before [] l took fine = (rw (append-nil before) at fine, tt)
  Taken-last before (x ∷ done) l took fine = (
    took.0,
    Taken-last (List.◌++◌ before (x ∷ [])) done l took.1
        (rw (append_assoc before (x ∷ []) done) fine),
  )

  -- What a loop of writes ends with.
  abbrev Written : List String → List String × Option String → Type 0
  Written all out = ((out.0 ≡ all) × Taken [] all × (out.1 ≡ none)) ⊎ Refused all out.0 out.1

  write_lines-Written :
      (done ls : List String)
      → Taken [] done
      → Written (List.◌++◌ done ls) (write_lines h s done ls)
  unfolding write_lines
  write_lines-Written done [] took = inl (sym (append-nil done), rw (append-nil done) took, refl)
  write_lines-Written done (l ∷ ls) took = elim (Option-cases (h.write done l)) [
    | inl fine ↦
        rw (fine, write_lines, sym (append_assoc done (l ∷ []) ls))
          (write_lines-Written (List.◌++◌ done (l ∷ [])) ls (Taken-last [] done l took fine))
    | inr (x, bad) ↦ rw (bad, write_lines) (inr (l, ls, x, refl, took, bad, refl))
  ]

  lines_empty : (d : Digest) → is_empty d ≡ true → lines h s d ≡ []
  unfolding lines is_empty
  lines_empty d nothing =
      rw
        (
          is_nil-eq d.opened (ground (arith, nothing)),
          is_nil-eq d.resolved (ground (arith, nothing)),
        )
        refl

  -- What a send does: it writes all lines, finds no connection, or is refused a line.
  abbrev pub SentInOrder : Digest → Type 0
  SentInOrder d =
      let out = syslog_send h s d in
      ((out.0 ≡ lines h s d) × Taken [] (lines h s d) × (out.1 ≡ none))
      ⊎ (((x : String) × (h.dial (or_else s.network "udp") s.addr ≡ some x) × (out ≡ ([], some x)))
          ⊎ Refused (lines h s d) out.0 out.1)

  -- A send writes the frames in their order: all of them, none where there is no connection, or those
  -- before the first that the connection refuses, whose error it reports.
  pub syslog_send_in_order : (d : Digest) → SentInOrder d
  unfolding syslog_send lines is_empty
  syslog_send_in_order d = elim (Bool-cases (is_empty d)) [
    | inl nothing ↦ rw (nothing, syslog_send, lines_empty d nothing) (inl (refl, tt, refl))
    | inr some_left ↦ elim (Option-cases (h.dial (or_else s.network "udp") s.addr)) [
      | inl fine ↦
          rw (some_left, fine, syslog_send)
            (elim (write_lines-Written [] (lines h s d) tt) [
              | inl all ↦ inl all
              | inr refused ↦ inr (inr refused)
            ])
      | inr (x, bad) ↦ rw (some_left, bad, syslog_send) (inr (inl (x, refl, refl)))
    ]
  ]
