-- ===== src/Notify/Format.antt =====
-- The text of a digest that the chat channels share (notify/format.go). `b.Len` is the text that was
-- written so far.
use Prim.Native.Char.{Char, code}
use Prim.Native.String.{◌++◌}
use certlight.Base.{ℕ, suc, zero, ◌/◌, ◌%◌, String, List, [], ◌∷◌, ◌==◌, eqb, length, if◌then◌else◌}
use certlight.Core.Severity.{Severity, critical, high, medium, low}
use certlight.Core.Finding.{Finding}
use certlight.Notify.Digest.{Digest, is_nil}

abbrev pub digit : ℕ → String
digit n =
    if eqb n 0
    then "0"
    else if eqb n 1
    then "1"
    else if eqb n 2
    then "2"
    else if eqb n 3
    then "3"
    else if eqb n 4
    then "4"
    else if eqb n 5
    then "5"
    else if eqb n 6
    then "6"
    else if eqb n 7
    then "7"
    else if eqb n 8
    then "8"
    else "9"

-- The verb `%d` of package fmt, for numbers below 10 ^ 20, which an int is.
unfoldable pub digits : ℕ → ℕ → String → String
digits zero n acc = acc
digits (suc fuel) n acc =
    let more = digits fuel (n / 10) (digit (n % 10) ++ acc) in
    if eqb (n / 10) 0 then digit (n % 10) ++ acc else more

unfoldable pub decimal : ℕ → String
unfolding digits
decimal n = digits 20 n ""

abbrev pub severity_badge : Severity → String
severity_badge critical = "🟥 CRITICAL"
severity_badge high = "🟧 HIGH"
severity_badge medium = "🟨 MEDIUM"
severity_badge low = "🟦 LOW"
severity_badge _ = "⬜ INFO"

abbrev pub product_name : String → String
product_name m = if m == "certwatch" then "CertLight" else m

-- One finding of the first loop.
abbrev pub opened_text : Finding → String
opened_text f =
    "\n"
    ++ severity_badge f.severity
    ++ " "
    ++ f.target
    ++ "\n  "
    ++ f.title
    ++ "\n  → "
    ++ f.remediation
    ++ "\n"

abbrev pub resolved_text : Finding → String
resolved_text f = "  • " ++ f.target ++ " — " ++ f.title ++ "\n"

-- A loop that writes each finding.
unfoldable pub write_all : (Finding → String) → List Finding → String
write_all line [] = ""
write_all line (f ∷ fs) = line f ++ write_all line fs

-- `strings.TrimRight(s, "\n")`
abbrev pub cons_unless_end : Char → String → String
cons_unless_end c String.[] = if eqb (code c) 10 then "" else String.◌∷◌ c ""
cons_unless_end c (String.◌∷◌ d s) = String.◌∷◌ c (String.◌∷◌ d s)

unfoldable pub trim_newlines : String → String
trim_newlines String.[] = ""
trim_newlines (String.◌∷◌ c s) = cons_unless_end c (trim_newlines s)

unfoldable pub opened_part : Digest → String
unfolding write_all decimal
opened_part d =
    if is_nil d.opened
    then ""
    else product_name d.module_id
      ++ " — "
      ++ decimal (length d.opened)
      ++ " new finding(s)\n"
      ++ write_all opened_text d.opened

unfoldable pub resolved_part : String → Digest → String
unfolding write_all decimal
resolved_part written d =
    if is_nil d.resolved
    then ""
    else (if written == "" then "" else "\n")
      ++ "✅ "
      ++ decimal (length d.resolved)
      ++ " finding(s) resolved\n"
      ++ write_all resolved_text d.resolved

unfoldable pub format_text : Digest → String
unfolding opened_part resolved_part trim_newlines
format_text d = trim_newlines (opened_part d ++ resolved_part (opened_part d) d)
