-- ===== src/Notify/Syslog/Plain.antt =====
-- Texts of one line: what SyslogChannel makes of a finding's message (notify/channels.go).
use Prim.Native.Char.{Char, code, len_utf8}
use Prim.Native.Nat.{compare, Ordering}
use Prim.Native.String.{◌++◌, len, slice, fits}
use Prim.Native.String.len as Len
use Prim.Native.String.slice as Slice
use text.Mathlib.TextPositions.{len-append}
use text.Mathlib.TextEquality.{slice-prefix}
use certlight.Base.{
  ℕ, zero, suc, ◌-◌, ◌/◌, ◌%◌, ◌≤◌, ◌≡◌, refl, sym, ◌∙◌, String, Bool, true, false, not, List, [],
  ◌∷◌, eqb, ltb, if◌then◌else◌, All, Bool-cases, inl, inr, arith,
}
use certlight.License.Words.{every, every-append}
use certlight.Notify.Format.{digit, digits, decimal}
use certlight.Notify.Syslog.{is_break, blank, map_runes, sanitize_syslog, concat}

-- A text without a newline, a carriage return and a NUL.
abbrev pub IsPlain : String → Type 0
IsPlain s = every (λ n. not (is_break n)) s ≡ true

pub IsPlain-append : (s t : String) → IsPlain s → IsPlain t → IsPlain (s ++ t)
IsPlain-append s t p q = every-append (λ n. not (is_break n)) s t ∙ ground (arith, p, q)

IsPlain-prefix : (s t : String) → IsPlain (s ++ t) → IsPlain s
IsPlain-prefix s t p =
    let both = sym (every-append (λ n. not (is_break n)) s t) ∙ p in ground (arith, both)

blank_plain : (c : Char) → not (is_break (code (blank c))) ≡ true
blank_plain c = elim (Bool-cases (is_break (code c))) [
  | inl p ↦ rw p refl
  | inr p ↦ rw p (rw p refl)
]

map_runes-blank : (s : String) → IsPlain (map_runes blank s)
unfolding map_runes every
map_runes-blank String.[] = refl
map_runes-blank (String.◌∷◌ c s) = rw (blank_plain c, map_runes-blank s) refl

-- What a sanitised text holds is one line.
pub sanitize_syslog-IsPlain : (s : String) → IsPlain (sanitize_syslog s)
unfolding sanitize_syslog every
sanitize_syslog-IsPlain s =
    let t = map_runes blank s in
    elim (Bool-cases (ltb 1600 (len t))) [
      | inl long ↦
          let (rest, is) = slice-prefix t 1600 in
          rw long (
            IsPlain-append (slice t 0 1600) "…"
              (IsPlain-prefix (slice t 0 1600) rest (rw is (map_runes-blank s))) refl)
      | inr short ↦ rw short (map_runes-blank s)
    ]

len-fits :
    (o : Ordering) (c : Char) (r : String) (b : ℕ)
    → compare (len_utf8 c) b ≡ o
    → len r ≤ b - len_utf8 c
    → len (fits o c r) ≤ b
len-fits Ordering.lt c r b e h = rw (Len.cons c r) (ground (arith, e, h))
len-fits Ordering.eq c r b e h = rw (Len.cons c r) (ground (arith, e, h))
len-fits Ordering.gt c r b e h = rw (Len.nil) (omega arith)

len-slice : (s : String) (b : ℕ) → len (slice s 0 b) ≤ b
len-slice String.[] b = rw (Slice.nil, Len.nil) (omega arith)
len-slice (String.◌∷◌ c s) b =
    rw (Slice.cons-zero c s b)
      (len-fits (compare (len_utf8 c) b) c _ b refl (len-slice s (b - len_utf8 c)))

-- Whatever the finding, its message has at most 1603 bytes.
sanitize_syslog_bounded : (s : String) → len (sanitize_syslog s) ≤ 1603
unfolding sanitize_syslog
sanitize_syslog_bounded s =
    let t = map_runes blank s in
    elim (Bool-cases (ltb 1600 (len t))) [
      | inl long ↦ rw long (omega (arith, len-append (slice t 0 1600) "…", len-slice t 1600))
      | inr short ↦ rw short (ground (arith, short))
    ]

if_IsPlain : (b : Bool) (s t : String) → IsPlain s → IsPlain t → IsPlain (if b then s else t)
if_IsPlain true s t p q = p
if_IsPlain false s t p q = q

digit-IsPlain : (n : ℕ) → IsPlain (digit n)
unfolding every
digit-IsPlain n = if_IsPlain (eqb n 0) "0" _ refl (
    if_IsPlain (eqb n 1) "1" _ refl (
      if_IsPlain (eqb n 2) "2" _ refl (
        if_IsPlain (eqb n 3) "3" _ refl (
          if_IsPlain (eqb n 4) "4" _ refl (
            if_IsPlain (eqb n 5) "5" _ refl (
              if_IsPlain (eqb n 6) "6" _ refl
                (if_IsPlain (eqb n 7) "7" _ refl (if_IsPlain (eqb n 8) "8" "9" refl refl))))))))

digits-IsPlain : (fuel n : ℕ) (acc : String) → IsPlain acc → IsPlain (digits fuel n acc)
unfolding digits
digits-IsPlain zero n acc p = p
digits-IsPlain (suc fuel) n acc p =
    let here = IsPlain-append (digit (n % 10)) acc (digit-IsPlain (n % 10)) p in
    elim (Bool-cases (eqb (n / 10) 0)) [
      | inl last ↦ rw last here
      | inr more ↦ rw more (digits-IsPlain fuel (n / 10) _ here)
    ]

pub decimal-IsPlain : (n : ℕ) → IsPlain (decimal n)
unfolding decimal every
decimal-IsPlain n = digits-IsPlain 20 n "" refl

pub concat-IsPlain : (ss : List String) → All IsPlain ss → IsPlain (concat ss)
unfolding concat every
concat-IsPlain [] p = refl
concat-IsPlain (s ∷ ss) p = IsPlain-append s (concat ss) p.0 (concat-IsPlain ss p.1)
