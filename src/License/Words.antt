-- ===== src/License/Words.antt =====
-- What license/license.go uses of Go's package strings: `TrimSpace`, `TrimPrefix` and `SplitN` at
-- the first dot.
use Prim.Native.Char.{Char, code}
use Prim.Native.String.{[], ◌∷◌, ◌++◌, len, slice}
use text.Mathlib.Text.{starts_with}
use text.Mathlib.TextLemmas.{nil-append, cons-append}
use text.Mathlib.TextPositions.{starts_with-append, slice-append_right, len-append}
use certlight.Base.{
  ℕ, ◌≡◌, refl, ◌∙◌, ap, String, Bool, true, false, ◌&&◌, ◌||◌, not, Option, none, some, eqb, leb,
  if◌then◌else◌, arith,
}

-- `unicode.IsSpace`
unfoldable pub is_space : ℕ → Bool
is_space n =
    leb 9 n && leb n 13
    || eqb n 32
    || eqb n 133
    || eqb n 160
    || eqb n 5760
    || leb 8192 n && leb n 8202
    || eqb n 8232
    || eqb n 8233
    || eqb n 8239
    || eqb n 8287
    || eqb n 12288

unfoldable pub trim_left : String → String
unfolding is_space
trim_left [] = []
trim_left (c ∷ s) = let rest = trim_left s in if is_space (code c) then rest else c ∷ s

abbrev pub cons_trimmed : Char → String → String
cons_trimmed c [] = if is_space (code c) then [] else c ∷ []
cons_trimmed c (d ∷ s) = c ∷ d ∷ s

unfoldable pub trim_right : String → String
unfolding is_space
trim_right [] = []
trim_right (c ∷ s) = cons_trimmed c (trim_right s)

unfoldable pub trim_space : String → String
unfolding trim_left trim_right
trim_space s = trim_right (trim_left s)

unfoldable pub trim_prefix : String → String → String
trim_prefix s p = if starts_with s p then slice s (len p) (len s) else s

abbrev cons_first : Char → Option (String × String) → Option (String × String)
cons_first c none = none
cons_first c (some (s, t)) = some (c ∷ s, t)

-- `SplitN(s, ".", 2)`, `none` where it gives one part.
unfoldable pub split_dot : String → Option (String × String)
split_dot [] = none
split_dot (c ∷ s) =
    let rest = split_dot s in if eqb (code c) 46 then some ([], s) else cons_first c rest

-- All the characters are those that a test admits.
unfoldable pub every : (ℕ → Bool) → String → Bool
every p [] = true
every p (c ∷ s) = p (code c) && every p s

pub every-append : (p : ℕ → Bool) (s t : String) → every p (s ++ t) ≡ (every p s && every p t)
unfolding every
every-append p [] t = rw nil-append refl
every-append p (c ∷ s) t = rw (cons-append, every) (ground (arith, every-append p s t))

trim_left-every : (s : String) → every (λ n. not (is_space n)) s ≡ true → trim_left s ≡ s
unfolding trim_left every
trim_left-every [] h = refl
trim_left-every (c ∷ s) h = ground (arith, h)

both : (a b : Bool) → (a && b) ≡ true → (a ≡ true) × (b ≡ true)
both a b h = ground (arith, h)

cons_trimmed-keep :
    (c : Char) (s : String) → not (is_space (code c)) ≡ true → cons_trimmed c s ≡ c ∷ s
cons_trimmed-keep c [] h = ground (arith, h)
cons_trimmed-keep c (d ∷ s) h = refl

trim_right-every : (s : String) → every (λ n. not (is_space n)) s ≡ true → trim_right s ≡ s
unfolding trim_right every
trim_right-every [] h = refl
trim_right-every (c ∷ s) h =
    let (here, later) = both (not (is_space (code c))) (every (λ n. not (is_space n)) s) h in
    ap (cons_trimmed c) (trim_right-every s later) ∙ cons_trimmed-keep c s here

pub trim_space-every : (s : String) → every (λ n. not (is_space n)) s ≡ true → trim_space s ≡ s
unfolding trim_space
trim_space-every s h = rw (trim_left-every s h) (trim_right-every s h)

pub trim_prefix-append : (p s : String) → trim_prefix (p ++ s) p ≡ s
unfolding trim_prefix
trim_prefix-append p s =
    rw (starts_with-append p s, trim_prefix, len-append p s) (slice-append_right p s)

pub split_dot-append :
    (s t : String) → every (λ n. not (eqb n 46)) s ≡ true → split_dot (s ++ "." ++ t) ≡ some (s, t)
unfolding split_dot every
split_dot-append [] t h =
    rw (nil-append ("." ++ t), cons-append "." [] t, nil-append t, split_dot) refl
split_dot-append (c ∷ s) t h =
    let (here, later) = both (not (eqb (code c) 46)) (every (λ n. not (eqb n 46)) s) h in
    let dotless : eqb (code c) 46 ≡ false = ground (arith, here) in
    rw (cons-append c s ("." ++ t), split_dot, dotless, split_dot-append s t later) refl
