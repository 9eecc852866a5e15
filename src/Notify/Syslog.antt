-- ===== src/Notify/Syslog.antt =====
-- SyslogChannel (notify/channels.go). The connection, the address of a text, the lower case of a
-- text, the stamp of a time and the name of the host are parameters; a facility is not negative. The
-- cut at 1600 bytes leaves out a character that it would split, where Go keeps its first bytes.
pub mod Plain
pub mod Frames
use Prim.Native.Char.{Char, code}
use Prim.Native.String.{◌++◌, len, slice}
use Prim.Native.String
use certlight.Base.{
  ℕ, ◌+◌, ◌*◌, String, Bool, true, false, ◌||◌, Option, none, some, List, [], ◌∷◌, map, ◌==◌, eqb,
  ltb, if◌then◌else◌,
}
use mathlib.Core.List
use certlight.Core.Severity.{severity_to_string}
use certlight.Core.Finding.{Finding}
use certlight.Core.Value.{Value, text, Fields, no_fields, field}
use certlight.License.Words.{trim_space}
use certlight.Notify.Digest.{Digest, is_empty}
use certlight.Notify.Format.{decimal}

pub record SyslogChannel : Type 0 where
  pub addr : String
  pub network : String
  pub hostname : String
  pub tag : String
  pub facility : ℕ

-- What the channel asks of the system. `write` is told what the connection has taken so far.
pub record Host : Type 0 where
  pub os_hostname : Option String
  pub pid : ℕ
  pub now : ℕ
  pub stamp : ℕ → String
  pub to_lower : String → String
  pub is_ip : String → Bool
  pub dial : String → String → Option String
  pub write : List String → String → Option String

abbrev pub syslog_severity : String → ℕ
syslog_severity s =
    if s == "critical"
    then 2
    else if s == "high"
    then 3
    else if s == "medium"
    then 4
    else if s == "low"
    then 5
    else 6

abbrev pub status_word : Bool → String
status_word true = "resolved"
status_word false = "open"

-- `ev[key]`, where it is a text.
abbrev text_of : Value → Option String
text_of (text s) = some s
text_of _ = none

unfoldable pub text_at : String → Fields → Option String
text_at key no_fields = none
text_at key (field k v more) = let later = text_at key more in if k == key then text_of v else later

abbrev pub address : (String → Bool) → Option String → String → String
address is_ip none rest = rest
address is_ip (some s) rest = if is_ip (trim_space s) then trim_space s else rest

unfoldable pub first_address : (String → Bool) → Fields → List String → String
unfolding text_at
first_address is_ip ev [] = ""
first_address is_ip ev (key ∷ keys) = address is_ip (text_at key ev) (first_address is_ip ev keys)

unfoldable pub evidence_ip : (String → Bool) → Option Fields → String
unfolding first_address
evidence_ip is_ip none = ""
evidence_ip is_ip (some ev) =
    first_address is_ip ev ("source_ip" ∷ "src_ip" ∷ "src" ∷ "actor" ∷ "client_ip" ∷ "ip" ∷ [])

abbrev pub is_break : ℕ → Bool
is_break n = eqb n 10 || eqb n 13 || eqb n 0

abbrev pub blank : Char → Char
blank c = if is_break (code c) then " " else c

-- `strings.Map`
unfoldable pub map_runes : (Char → Char) → String → String
map_runes f String.[] = String.[]
map_runes f (String.◌∷◌ c s) = String.◌∷◌ (f c) (map_runes f s)

abbrev pub bounded : String → String
bounded s = if ltb 1600 (len s) then slice s 0 1600 ++ "…" else s

unfoldable pub sanitize_syslog : String → String
unfolding map_runes
sanitize_syslog s = bounded (map_runes blank s)

abbrev pub src_pair : String → String
src_pair ip = if ip == "" then "" else " src=" ++ ip

unfoldable pub syslog_message : (String → Bool) → String → Finding → Bool → String
unfolding sanitize_syslog evidence_ip
syslog_message is_ip m f resolved = sanitize_syslog (
    (if resolved then "RESOLVED: " else "")
    ++ f.title
    ++ " | product="
    ++ m
    ++ " severity="
    ++ severity_to_string f.severity
    ++ " check="
    ++ f.check
    ++ " target="
    ++ f.target
    ++ " status="
    ++ status_word resolved
    ++ src_pair (evidence_ip is_ip f.evidence))

-- The texts of a format, one after the other.
unfoldable pub concat : List String → String
concat [] = ""
concat (s ∷ ss) = s ++ concat ss

-- The host's name, or a dash.
abbrev pub named_host : Option String → String
named_host none = "-"
named_host (some h) = if h == "" then "-" else h

abbrev pub or_else : String → String → String
or_else s default = if s == "" then default else s

module _ (h : Host) (s : SyslogChannel) where
  abbrev pub facility_of : ℕ
  facility_of = if eqb s.facility 0 then 16 else s.facility

  abbrev pub parts : Digest → ℕ → String → List String
  parts d pri message =
      "<"
      ∷ decimal pri
      ∷ ">"
      ∷ h.stamp (if eqb d.at 0 then h.now else d.at)
      ∷ " "
      ∷ or_else s.hostname (named_host h.os_hostname)
      ∷ " "
      ∷ or_else s.tag d.module_id
      ∷ "["
      ∷ decimal h.pid
      ∷ "]: "
      ∷ message
      ∷ []

  -- `<%d>%s %s %s[%d]: %s`, without the line's end.
  unfoldable pub frame : Digest → ℕ → String → String
  unfolding concat
  frame d pri message = concat (parts d pri message)

  abbrev pub opened_pri : Finding → ℕ
  opened_pri f = facility_of * 8 + syslog_severity (h.to_lower (severity_to_string f.severity))

  unfoldable pub opened_line : Digest → Finding → String
  unfolding frame syslog_message
  opened_line d f = frame d (opened_pri f) (syslog_message h.is_ip d.module_id f false) ++ "\n"

  unfoldable pub resolved_line : Digest → Finding → String
  unfolding frame syslog_message
  resolved_line d f =
      frame d (facility_of * 8 + 5) (syslog_message h.is_ip d.module_id f true) ++ "\n"

  unfoldable pub lines : Digest → List String
  unfolding opened_line resolved_line
  lines d = List.◌++◌ (map (opened_line d) d.opened) (map (resolved_line d) d.resolved)

  -- The loop of `WriteString`: what was written, and the error that ended it.
  unfoldable pub write_lines : List String → List String → List String × Option String
  write_lines done [] = (done, none)
  write_lines done (l ∷ ls) =
      let rest = write_lines (List.◌++◌ done (l ∷ [])) ls in
      elim (h.write done l) [ some x ↦ (done, some x) | none ↦ rest ]

  unfoldable pub syslog_send : Digest → List String × Option String
  unfolding lines write_lines is_empty
  syslog_send d =
      if is_empty d then ([], none) else elim (h.dial (or_else s.network "udp") s.addr) [
        | some x ↦ ([], some x)
        | none ↦ write_lines [] (lines d)
      ]
