-- ===== src/Notify/Channels.antt =====
-- The channels that post JSON (notify/channels.go): webhook, Slack and Telegram. The HTTP client, the
-- parse of an URL and `json.Marshal` are parameters. A send gives the request that it hands to the
-- client, if it comes to that, and its error.
use Prim.Native.String.{◌++◌}
use certlight.Base.{
  ℕ, ◌≡◌, ◌≤◌, refl, String, Bool, ◌&&◌, Option, none, some, List, [], ◌∷◌, map, ◌==◌, leb,
  if◌then◌else◌, Result, ok, err, arith, lookup, inl, inr, Bool-cases, subst, sym,
}
use certlight.Core.Severity.{
  severity_to_string, severity_of_string, severity_of_string-severity_to_string,
}
use certlight.Core.Finding.{Finding}
use certlight.Core.Value.{Fields}
use certlight.Notify.Digest.{Digest}
use certlight.Notify.Format.{format_text}

pub record WebhookChannel : Type 0 where
  pub url : String
  pub secret : String

pub record SlackChannel : Type 0 where
  pub webhook_url : String

pub record TelegramChannel : Type 0 where
  pub bot_token : String
  pub chat_id : String
  pub base_url : String

pub record WebhookFinding : Type 0 where
  pub target : String
  pub check : String
  pub severity : String
  pub title : String
  pub remediation : String
  pub evidence : Option Fields

pub record WebhookPayload : Type 0 where
  pub version : ℕ
  pub module_id : String
  pub at : ℕ
  pub opened : List WebhookFinding
  pub resolved : List WebhookFinding

pub record Request : Type 0 where
  pub url : String
  pub headers : List (String × String)
  pub body : String

pub record Response : Type 0 where
  pub status_code : ℕ
  pub status : String

pub record Client : Type 0 where
  pub marshal_payload : WebhookPayload → Result String String
  pub marshal_texts : List (String × String) → Result String String
  pub bad_url : String → Option String  -- the error of `NewRequestWithContext`
  pub answer : Request → Result String Response

-- What a send leaves: the request that went out, and the error that it returns.
abbrev pub Sent : Type 0
Sent = Option Request × Option String

unfoldable pub to_wire : Finding → WebhookFinding
to_wire f = record {
  target = f.target;
  check = f.check;
  severity = severity_to_string f.severity;
  title = f.title;
  remediation = f.remediation;
  evidence = f.evidence;
}

unfoldable pub payload_of : Digest → WebhookPayload
unfolding to_wire
payload_of d = record {
  version = 1;
  module_id = d.module_id;
  at = d.at;
  opened = map to_wire d.opened;
  resolved = map to_wire d.resolved;
}

abbrev pub is_success : ℕ → Bool
is_success code = leb 200 code && leb code 299

abbrev pub answered : String → Result String Response → Option String
answered name (err x) = some x
answered name (ok r) =
    if is_success r.status_code then none else some (name ++ " returned " ++ r.status)

abbrev pub token_headers : String → List (String × String)
token_headers secret =
    if secret == "" then [] else ("X-Hexward-Token", secret) ∷ ("X-Sentinel-Token", secret) ∷ []

-- A finding on the wire is the finding.
abbrev pub IsSame : Finding → WebhookFinding → Type 0
IsSame f g =
    (g.target ≡ f.target)
    × (g.check ≡ f.check)
    × (severity_of_string g.severity ≡ f.severity)
    × (g.title ≡ f.title)
    × (g.remediation ≡ f.remediation)
    × (g.evidence ≡ f.evidence)

abbrev pub AreSame : List Finding → List WebhookFinding → Type 0
AreSame [] [] = Unit
AreSame [] (g ∷ gs) = ⊥
AreSame (f ∷ fs) [] = ⊥
AreSame (f ∷ fs) (g ∷ gs) = IsSame f g × AreSame fs gs

-- A payload that holds a whole digest, in its order.
pub record IsWhole (d : Digest) (p : WebhookPayload) : Type 0 where
  pub version : p.version ≡ 1
  pub owner : p.module_id ≡ d.module_id
  pub time : p.at ≡ d.at
  pub opened : AreSame d.opened p.opened
  pub resolved : AreSame d.resolved p.resolved

-- Headers that hold a secret, if there is one, under both names, and the type of the body.
abbrev pub IsSigned : String → List (String × String) → Type 0
IsSigned secret headers =
    (lookup "Content-Type" headers ≡ some "application/json")
    × (lookup "X-Hexward-Token" headers ≡ (if secret == "" then none else some secret))
    × (lookup "X-Sentinel-Token" headers ≡ (if secret == "" then none else some secret))

to_wire-AreSame : (fs : List Finding) → AreSame fs (map to_wire fs)
unfolding to_wire
to_wire-AreSame [] = tt
to_wire-AreSame (f ∷ fs) = (
  (refl, refl, severity_of_string-severity_to_string f.severity, refl, refl, refl),
  to_wire-AreSame fs,
)

token_headers-IsSigned :
    (secret : String)
    → IsSigned secret (("Content-Type", "application/json") ∷ token_headers secret)
unfolding lookup
token_headers-IsSigned secret = elim (Bool-cases (secret == "")) [
  | inl empty ↦ rw empty (refl, refl, refl)
  | inr present ↦ rw present (refl, refl, refl)
]

module _ (c : Client) where
  -- The steps after `json.Marshal`, which the three channels share.
  abbrev pub posted : String → String → List (String × String) → Option String → String → Sent
  posted name url headers (some x) body = (none, some x)
  posted name url headers none body =
      let request : Request = record {
        url = url;
        headers = ("Content-Type", "application/json") ∷ headers;
        body = body;
      } in
      (some request, answered name (c.answer request))

  unfoldable pub post : String → String → List (String × String) → Result String String → Sent
  post name url headers (err x) = (none, some x)
  post name url headers (ok body) = posted name url headers (c.bad_url url) body

  unfoldable pub webhook_send : WebhookChannel → Digest → Sent
  unfolding post payload_of
  webhook_send w d =
      post "webhook" w.url (token_headers w.secret) (c.marshal_payload (payload_of d))

  unfoldable pub slack_send : SlackChannel → Digest → Sent
  unfolding post format_text
  slack_send s d = post "slack" s.webhook_url [] (c.marshal_texts (("text", format_text d) ∷ []))

  abbrev pub base_of : TelegramChannel → String
  base_of t = if t.base_url == "" then "https://api.telegram.org" else t.base_url

  unfoldable pub telegram_send : TelegramChannel → Digest → Sent
  unfolding post format_text
  telegram_send t d =
      post "telegram" (base_of t ++ "/bot" ++ t.bot_token ++ "/sendMessage") []
        (c.marshal_texts (("chat_id", t.chat_id) ∷ ("text", format_text d) ∷ []))

  -- A request of a channel, with the answer that makes its send a success.
  pub record Accepted (url body : String) (r : Request) : Type 0 where
    pub to : r.url ≡ url
    pub carries : r.body ≡ body
    pub reply : Response
    pub answers : c.answer r ≡ ok reply
    pub at_least : 200 ≤ reply.status_code
    pub at_most : reply.status_code ≤ 299

  answered-none :
      (name : String) (a : Result String Response)
      → answered name a ≡ none
      → (reply : Response) × (a ≡ ok reply) × (200 ≤ reply.status_code) × (reply.status_code ≤ 299)
  answered-none name (err x) h = cc
  answered-none name (ok reply) h = (reply, refl, ground (arith, h), ground (arith, h))

  posted-success :
      (name url body : String) (headers : List (String × String)) (bad : Option String)
      → (posted name url headers bad body).1 ≡ none
      → (r : Request) × ((posted name url headers bad body).0 ≡ some r)
        × (r.headers ≡ ("Content-Type", "application/json") ∷ headers)
        × Accepted url body r
  posted-success name url body headers (some x) h = cc
  posted-success name url body headers none h =
      let (reply, answers, lower, upper) = answered-none name _ h in
      (
        _,
        refl,
        refl,
        record {
          to = refl;
          carries = refl;
          reply = reply;
          answers = answers;
          at_least = lower;
          at_most = upper;
        },
      )

  pub post-success :
      (name url : String) (headers : List (String × String)) (body : Result String String)
      → (post name url headers body).1 ≡ none
      → (b : String) × (r : Request) × (body ≡ ok b)
        × ((post name url headers body).0 ≡ some r)
        × (r.headers ≡ ("Content-Type", "application/json") ∷ headers)
        × Accepted url b r
  unfolding post
  post-success name url headers (err x) h = cc
  post-success name url headers (ok b) h =
      let (r, out, header, accepted) = posted-success name url b headers (c.bad_url url) h in
      (b, r, refl, out, header, accepted)

  -- A webhook send succeeds only where the receiver answered 2xx to a request to the channel's URL
  -- whose body is the print of a payload with every finding of the digest, in its order, and whose
  -- headers hold the secret, if there is one, under both names.
  pub webhook_send-Accepted :
      (w : WebhookChannel) (d : Digest)
      → (webhook_send w d).1 ≡ none
      → (p : WebhookPayload) × (b : String) × (r : Request) × (c.marshal_payload p ≡ ok b)
        × ((webhook_send w d).0 ≡ some r)
        × IsWhole d p
        × IsSigned w.secret r.headers
        × Accepted w.url b r
  unfolding webhook_send payload_of
  webhook_send-Accepted w d h =
      let (b, r, body, out, header, accepted) =
        post-success "webhook" w.url (token_headers w.secret) _ h in
      (
        payload_of d,
        b,
        r,
        body,
        out,
        record {
          version = refl;
          owner = refl;
          time = refl;
          opened = to_wire-AreSame d.opened;
          resolved = to_wire-AreSame d.resolved;
        },
        subst (IsSigned w.secret) (sym header) (token_headers-IsSigned w.secret),
        accepted,
      )
