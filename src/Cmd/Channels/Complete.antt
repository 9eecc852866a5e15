-- ===== src/Cmd/Channels/Complete.antt =====
-- What `build` makes of the flags: nothing that a flag asks for is missing, and nothing else is there.
use mathlib.Core.List
use mathlib.Core.List.{map-append}
use certlight.Base.{
  ◌≡◌, refl, sym, ◌∙◌, ap, String, Bool, true, false, ◌||◌, List, [], ◌∷◌, map, ◌==◌, if◌then◌else◌,
  Result, ok, err, ◌>>=◌, bind-ok, Bool-cases, inl, inr, arith,
}
use certlight.Notify.Hfs.{Meta}
use certlight.Cmd.Channels.{
  ChannelFlags, Channel, webhook, slack, telegram, syslog, hfs, Sink, webhook_sink, syslog_sink,
  file_sink, hec_sink, Outside, wrap, unless, evidence_mode, webhook_secret, webhook_of, single,
  webhook_part, syslog_tls, syslog_hfs, syslog_kv, syslog_of, syslog_part, file_part, hec_tls,
  hec_checked, hec_of, hec_part, join, build_parts, build,
}

-- Where a channel delivers to: its kind, its address and its secret.
pub record Destination : Type 0 where
  pub kind : String
  pub address : String
  pub secret : String

abbrev pub of_sink : {T : Type 0} → Sink T → Destination
of_sink (webhook_sink url secret) = record { kind = "webhook"; address = url; secret = secret }
of_sink (syslog_sink s) = record { kind = "syslog"; address = s.addr; secret = "" }
of_sink (file_sink path) = record { kind = "file"; address = path; secret = "" }
of_sink (hec_sink h) = record { kind = "hec"; address = h.url; secret = h.token }

abbrev pub destination : {T M : Type 0} → Channel T M → Destination
destination (webhook w) = record { kind = "webhook"; address = w.url; secret = w.secret }
destination (slack s) = record { kind = "slack"; address = s.webhook_url; secret = "" }
destination (telegram t) = record { kind = "telegram"; address = t.chat_id; secret = t.bot_token }
destination (syslog s) = record { kind = "syslog"; address = s.addr; secret = "" }
destination (hfs sink meta mode) = of_sink sink

abbrev pub text_or_none : Result String String → String
text_or_none (ok s) = s
text_or_none (err x) = ""

-- The secret that a file holds, if one is named.
abbrev pub secret_in : {T M : Type 0} → Outside T M → String → String
secret_in out file = if file == "" then "" else text_or_none (out.read_secret_file file)

-- The destination that a flag asks for, where it is set.
abbrev pub asked : String → String → String → List Destination
asked kind address secret =
    if address == "" then [] else record { kind = kind; address = address; secret = secret } ∷ []

abbrev pub wanted : {T M : Type 0} → Outside T M → ChannelFlags → List Destination
wanted out c = List.◌++◌ (asked "webhook" c.webhook (secret_in out c.webhook_secret_file)) (
    List.◌++◌ (asked "syslog" c.syslog_addr "") (
      List.◌++◌ (asked "file" c.export_file "")
        (asked "hec" c.hec_url (secret_in out c.hec_token_file))))

wrap-ok : {A : Type 0} (text : String) (r : Result String A) (a : A) → wrap text r ≡ ok a → r ≡ ok a
wrap-ok text (ok a) b h = h
wrap-ok text (err x) b h = cc

module _ {T M : Type 0} where
  -- A channel that is made delivers to the destination.
  abbrev Leads : Destination → Result String (Channel T M) → Type 0
  Leads d (ok ch) = destination ch ≡ d
  Leads d (err x) = Unit

  Leads-if :
      (d : Destination) (b : Bool) (r q : Result String (Channel T M))
      → Leads d r
      → Leads d q
      → Leads d (if b then r else q)
  Leads-if d true r q h k = h
  Leads-if d false r q h k = k

  Leads-bind :
      {A : Type 0} (d : Destination) (r : Result String A) (f : A → Result String (Channel T M))
      → ((a : A) → r ≡ ok a → Leads d (f a))
      → Leads d (r >>= f)
  Leads-bind d (ok a) f h = h a refl
  Leads-bind d (err x) f h = tt

module _ {T M : Type 0} (out : Outside T M) (meta : Meta) (c : ChannelFlags) where
  -- Where the flag is set, its part is one channel that leads there, and else it is nothing.
  part-asked :
      (kind address secret : String) (r : Result String (Channel T M)) (cs : List (Channel T M))
      → Leads (record { kind = kind; address = address; secret = secret }) r
      → (if address == "" then ok [] else single out meta c r) ≡ ok cs
      → map destination cs ≡ asked kind address secret
  part-asked kind address secret r cs leads h = elim (Bool-cases (address == "")) [
    | inl unset ↦ let is : [] ≡ cs = ground (arith, rw unset at h) in rw (sym is, unset) refl
    | inr set ↦ rw set (made r leads (rw set at h))
  ]
    where
      made :
          (r : Result String (Channel T M))
          → Leads (record { kind = kind; address = address; secret = secret }) r
          → single out meta c r ≡ ok cs
          → map destination cs ≡ record { kind = kind; address = address; secret = secret } ∷ []
      made (ok ch) leads h =
          let is : ch ∷ [] ≡ cs = ground (arith, h) in rw (sym is) (ap (λ d. d ∷ []) leads)
      made (err x) leads h = cc

  secret_read :
      (s : String) → webhook_secret out meta c ≡ ok s → secret_in out c.webhook_secret_file ≡ s
  secret_read s h = elim (Bool-cases (c.webhook_secret_file == "")) [
    | inl unset ↦ rw unset (ground (arith, rw unset at h))
    | inr set ↦ rw (set, wrap-ok _ _ s (rw set at h)) refl
  ]

  webhook-asked :
      (mode : M) (cs : List (Channel T M))
      → webhook_part out meta c mode ≡ ok cs
      → map destination cs ≡ asked "webhook" c.webhook (secret_in out c.webhook_secret_file)
  unfolding webhook_part
  webhook-asked mode cs h =
      part-asked "webhook" c.webhook (secret_in out c.webhook_secret_file) _ cs
        (Leads-bind _ (webhook_secret out meta c) (webhook_of out meta c mode) (λ s is.
          rw (secret_read s is) (
            Leads-if _ (c.webhook_format == "" || c.webhook_format == "v1") _ _ refl
              (Leads-if _ (c.webhook_format == "v2") _ _ refl tt))))
        h

  syslog-asked :
      (mode : M) (cs : List (Channel T M))
      → syslog_part out meta c mode ≡ ok cs
      → map destination cs ≡ asked "syslog" c.syslog_addr ""
  unfolding syslog_part
  syslog-asked mode cs h =
      part-asked "syslog" c.syslog_addr "" (syslog_of out meta c mode) cs
        (Leads-if _ (c.syslog_format == "" || c.syslog_format == "kv") (syslog_kv out meta c) _
          (Leads-if _ (c.syslog_network == "udp" || c.syslog_network == "tcp") _ _ refl tt)
          (Leads-if _ (c.syslog_format == out.format_json || c.syslog_format == out.format_cef) _ _
            (Leads-bind _ (syslog_tls out meta c) (syslog_hfs out meta c mode)
              (λ tls _. Leads-bind _ (unless (out.validate _)) _ (λ _ _. refl)))
            tt))
        h

  file-asked :
      (mode : M) (cs : List (Channel T M))
      → file_part out meta c mode ≡ ok cs
      → map destination cs ≡ asked "file" c.export_file ""
  unfolding file_part
  file-asked mode cs h =
      part-asked "file" c.export_file "" (ok (hfs (file_sink c.export_file) meta mode)) cs refl h

  hec-asked :
      (mode : M) (cs : List (Channel T M))
      → hec_part out meta c mode ≡ ok cs
      → map destination cs ≡ asked "hec" c.hec_url (secret_in out c.hec_token_file)
  unfolding hec_part
  hec-asked mode cs h =
      part-asked "hec" c.hec_url (secret_in out c.hec_token_file) (hec_of out meta c mode) cs
        (elim (Bool-cases (c.hec_token_file == "")) [
          | inl unset ↦ rw unset tt
          | inr set ↦ rw set (
              Leads-bind _ (wrap "-hec-token-file" (out.read_secret_file c.hec_token_file))
                (hec_checked out meta c mode)
                (λ token is.
                  rw (wrap-ok _ _ token is)
                    (Leads-bind _ (_ >>= (λ _. hec_tls out meta c)) _ (λ tls _. refl))))
        ])
        h

  join-map :
      (p q : Result String (List (Channel T M))) (xs ys : List Destination)
      → ((cs : List (Channel T M)) → p ≡ ok cs → map destination cs ≡ xs)
      → ((cs : List (Channel T M)) → q ≡ ok cs → map destination cs ≡ ys)
      → (cs : List (Channel T M)) → join out meta c p q ≡ ok cs
      → map destination cs ≡ List.◌++◌ xs ys
  join-map (ok hs) (ok bs) xs ys f g cs h =
      let is : List.◌++◌ hs bs ≡ cs = ground (arith, h) in
      rw (sym is) (map-append destination hs bs ∙ (λ i. List.◌++◌ (f hs refl i) (g bs refl i)))
  join-map (ok hs) (err x) xs ys f g cs h = cc
  join-map (err x) q xs ys f g cs h = cc

  -- A `build` that succeeds gives a channel for each destination that a flag names, with the secret of
  -- the file that is named for it, in the order webhook, syslog, file, HEC, and no other channel.
  pub build_complete :
      (cs : List (Channel T M)) → build out meta c ≡ ok cs → map destination cs ≡ wanted out c
  unfolding build build_parts
  build_complete cs h =
      let (mode, _, parts) =
        bind-ok (evidence_mode out meta c (out.parse_evidence_mode c.evidence))
          (build_parts out meta c) cs h in
      join-map _ _ _ _ (webhook-asked mode)
        (join-map _ _ _ _ (syslog-asked mode) (join-map _ _ _ _ (file-asked mode) (hec-asked mode)))
        cs parts
