-- ===== src/Web/Ai.antt =====
-- AI Assist (web/ai.go): its configuration and the handlers that explain a finding. The client
-- library and what the file system and `url.Parse` answer are parameters; a handler also gives the
-- packet that it hands to the client, if it comes to that.
pub mod Gate
use Prim.Native.String.{◌++◌}
use certlight.Base.{
  ℕ, String, Bool, true, false, ◌&&◌, ◌||◌, not, Option, none, some, List, [], ◌∷◌, ◌==◌,
  if◌then◌else◌, Result, ok, err, ◌>>=◌,
}
use certlight.Core.Severity.{severity_to_string, status_to_string}
use certlight.Core.Value.{Fields}
use certlight.License.Words.{trim_space}
use certlight.License.Tier.{Tier, free, pro, team, other_tier}
use certlight.Store.Records.{Record, StoreOps}
use certlight.Web.Status.{Reply}

pub record AiConfig : Type 0 where
  pub url : String
  pub key_file : String
  pub language : String
  pub no_thinking : Bool

-- The options that the client is made with, beside its time limit, retries and tokens.
pub record ClientOptions : Type 0 where
  pub timeout_seconds : ℕ
  pub max_retries : ℕ
  pub max_tokens : ℕ
  pub api_key : Option String
  pub disable_thinking : Bool

pub record AiAssist (K : Type 0) : Type 0 where
  pub client : K
  pub endpoint : String
  pub keyed : Bool
  pub language : String

-- `aiclient.CoreFinding`
pub record CoreFinding : Type 0 where
  pub fingerprint : String
  pub module_id : String
  pub check : String
  pub title : String
  pub target : String
  pub severity : String
  pub status : String
  pub remediation : String
  pub evidence : Option Fields

pub record Explanation : Type 0 where
  pub text : String
  pub what_to_verify : List String
  pub disclaimer : String

-- The answer of `Explain`: `IsRejected` tells a rejected one from the other errors.
pub data Explained : Type 0 where
  explained : Explanation → Explained
  rejected failed : Explained

-- The library, for a client `K` and a packet `P`.
pub record AiLibrary (K P : Type 0) : Type 0 where
  pub is_base_url : String → Bool  -- an http(s) URL with a host
  pub read_file : String → Result String String
  pub trim_slashes : String → String
  pub normalize_language : String → String
  pub new_client : String → ClientOptions → K
  pub new_packet : String → String → CoreFinding → Result String P
  pub explain : K → P → Explained
  pub quote : String → String

pub record ExplainResponse : Type 0 where
  pub available : Bool
  pub reason : String
  pub explanation : String
  pub what_to_verify : List String
  pub disclaimer : String

pub data ExplainReply : Type 0 where
  response : ExplainResponse → ExplainReply
  refusal : Reply → ExplainReply

abbrev pub unavailable : String → ExplainResponse
unavailable reason = record {
  available = false;
  reason = reason;
  explanation = "";
  what_to_verify = [];
  disclaimer = "";
}

module _ {K P : Type 0} (lib : AiLibrary K P) where
  abbrev pub key_of : String → Result String String → Result String (Option String)
  key_of file (err x) = err ("read ai-assist-key-file: " ++ x)
  key_of file (ok text) =
      if trim_space text == ""
      then err ("ai-assist-key-file " ++ file ++ " is empty")
      else ok (some (trim_space text))

  abbrev pub api_key : AiConfig → Result String (Option String)
  api_key cfg =
      if cfg.key_file == "" then ok none else key_of cfg.key_file (lib.read_file cfg.key_file)

  abbrev pub is_some : Option String → Bool
  is_some none = false
  is_some (some _) = true

  abbrev pub assist : AiConfig → String → Option String → AiAssist K
  assist cfg raw key = record {
    client = lib.new_client (lib.trim_slashes raw) (record {
      timeout_seconds = 120;
      max_retries = 0;
      max_tokens = 300;
      api_key = key;
      disable_thinking = cfg.no_thinking;
    });
    endpoint = lib.trim_slashes raw;
    keyed = is_some key;
    language = lib.normalize_language cfg.language;
  }

  unfoldable pub new_ai_assist : AiConfig → Result String (Option (AiAssist K))
  new_ai_assist cfg =
      if trim_space cfg.url == ""
      then ok none
      else if not (lib.is_base_url (trim_space cfg.url))
      then err (
          "ai-assist-url must be an http(s) base URL such as http://127.0.0.1:8435, got "
          ++ lib.quote (trim_space cfg.url))
      else api_key cfg >>= (λ key. ok (some (assist cfg (trim_space cfg.url) key)))

  abbrev pub is_paid : Tier → Bool
  is_paid pro = true
  is_paid team = true
  is_paid _ = false

  -- `aiAllowed`: `none`, or the sentence that is shown.
  unfoldable pub ai_refusal : Option (AiAssist K) → Tier → Option String
  ai_refusal none tier = some "AI Assist is off. Start with -ai-assist-url to enable it."
  ai_refusal (some ai) tier =
      if ai.keyed && not (is_paid tier)
      then some
          "A dedicated AI host or your own endpoint (API key) needs a Pro or Team licence. The free edition works with a hexward-ai sidecar on the same host."
      else none

  -- Whether it is on, the sentence, the language and whether the endpoint has a key.
  unfoldable pub handle_ai_status : Option (AiAssist K) → Tier → Bool × String × String × Bool
  unfolding ai_refusal
  handle_ai_status ai tier = (
    elim (ai_refusal ai tier) [ none ↦ true | some _ ↦ false ],
    elim (ai_refusal ai tier) [ none ↦ "" | some reason ↦ reason ],
    elim ai [ none ↦ "" | some a ↦ a.language ],
    elim ai [ none ↦ false | some a ↦ a.keyed ],
  )

  abbrev pub core_finding : String → Record → CoreFinding
  core_finding m r = record {
    fingerprint = r.fingerprint;
    module_id = m;
    check = r.check;
    title = r.title;
    target = r.target;
    severity = severity_to_string r.severity;
    status = status_to_string r.status;
    remediation = r.remediation;
    evidence = r.evidence;
  }

  abbrev pub answer_of : Explained → ExplainResponse
  answer_of rejected =
      unavailable
        "AI Assist withheld this explanation: the model's answer was not grounded in the finding. The finding is unaffected."
  answer_of failed = unavailable "The AI Assist sidecar did not answer. The finding is unaffected."
  answer_of (explained e) = record {
    available = true;
    reason = "";
    explanation = e.text;
    what_to_verify = e.what_to_verify;
    disclaimer = e.disclaimer;
  }

  abbrev pub narrated : AiAssist K → Result String P → Option P × ExplainReply
  narrated ai (err x) =
      (none, response (unavailable "This finding has no title or severity to explain."))
  narrated ai (ok packet) = (some packet, response (answer_of (lib.explain ai.client packet)))

  -- What follows `aiAllowed`.
  abbrev pub explain_with :
      Option (AiAssist K) → Option String → String → Record → Option P × ExplainReply
  explain_with ai (some reason) m r = (none, response (unavailable reason))
  explain_with none none m r = (none, response (unavailable ""))  -- `aiAllowed` has refused it
  explain_with (some ai) none m r = narrated ai (lib.new_packet m ai.language (core_finding m r))

  -- What follows `Get`.
  abbrev pub explain_found :
      Option (AiAssist K) → Tier → String → Result String (Option Record) → Option P × ExplainReply
  explain_found ai tier m (err x) = (none, refusal (record { code = 500; message = "store error" }))
  explain_found ai tier m (ok none) =
      (none, refusal (record { code = 404; message = "no such finding" }))
  explain_found ai tier m (ok (some r)) = explain_with ai (ai_refusal ai tier) m r

  -- `body` is the fingerprint of the request, `none` where it is no JSON or too long.
  unfoldable pub handle_explain_finding :
      {S : Type 0}
      → StoreOps S
      → Option (AiAssist K)
      → Tier
      → String
      → Option String
      → S
      → Option P × ExplainReply
  unfolding ai_refusal
  handle_explain_finding store ai tier m none s =
      (none, refusal (record { code = 400; message = "fingerprint is required" }))
  handle_explain_finding store ai tier m (some fp) s =
      if trim_space fp == ""
      then (none, refusal (record { code = 400; message = "fingerprint is required" }))
      else explain_found ai tier m (store.get s m fp)
