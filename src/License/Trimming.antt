-- ===== src/License/Trimming.antt =====
-- `TrimSpace` of a text that was trimmed, and of one that a newline ends.
use Prim.Native.Char.{Char, code}
use Prim.Native.String.{[], ◌∷◌, ◌++◌}
use text.Mathlib.TextLemmas.{cons-append}
use certlight.Base.{◌≡◌, refl, sym, ◌∙◌, ap, String, true, false, Bool-cases, inl, inr}
use certlight.License.Words.{is_space, trim_left, trim_right, trim_space, cons_trimmed}

trim_left-space :
    (c : Char) (s : String) → is_space (code c) ≡ true → trim_left (c ∷ s) ≡ trim_left s
unfolding trim_left
trim_left-space c s p = rw p refl

trim_left-other : (c : Char) (s : String) → is_space (code c) ≡ false → trim_left (c ∷ s) ≡ c ∷ s
unfolding trim_left
trim_left-other c s p = rw p refl

cons_trimmed-space :
    (c : Char) (s : String) → is_space (code c) ≡ true → trim_left (cons_trimmed c s) ≡ trim_left s
unfolding trim_left
cons_trimmed-space c [] p = rw p refl
cons_trimmed-space c (d ∷ s) p = trim_left-space c (d ∷ s) p

cons_trimmed-other : (c : Char) (s : String) → is_space (code c) ≡ false → cons_trimmed c s ≡ c ∷ s
cons_trimmed-other c [] p = rw p refl
cons_trimmed-other c (d ∷ s) p = refl

-- The two ends are trimmed in either order.
trim_right-trim_left : (s : String) → trim_right (trim_left s) ≡ trim_left (trim_right s)
unfolding trim_left trim_right
trim_right-trim_left [] = refl
trim_right-trim_left (c ∷ s) = elim (Bool-cases (is_space (code c))) [
  | inl p ↦
      ap trim_right (trim_left-space c s p)
      ∙ trim_right-trim_left s
      ∙ sym (cons_trimmed-space c (trim_right s) p)
  | inr p ↦
      ap trim_right (trim_left-other c s p)
      ∙ cons_trimmed-other c (trim_right s) p
      ∙ sym (
          ap trim_left (cons_trimmed-other c (trim_right s) p) ∙ trim_left-other c (trim_right s) p)
]

trim_left_twice : (s : String) → trim_left (trim_left s) ≡ trim_left s
unfolding trim_left
trim_left_twice [] = refl
trim_left_twice (c ∷ s) = elim (Bool-cases (is_space (code c))) [
  | inl p ↦ rw (trim_left-space c s p) (trim_left_twice s)
  | inr p ↦ rw (trim_left-other c s p) (trim_left-other c s p)
]

trim_right-cons_trimmed :
    (c : Char) (s : String) → trim_right s ≡ s → trim_right (cons_trimmed c s) ≡ cons_trimmed c s
unfolding trim_right
trim_right-cons_trimmed c [] h = elim (Bool-cases (is_space (code c))) [
  | inl p ↦ rw p refl
  | inr p ↦ rw p (rw p refl)
]
trim_right-cons_trimmed c (d ∷ s) h = rw h refl

trim_right_twice : (s : String) → trim_right (trim_right s) ≡ trim_right s
unfolding trim_right
trim_right_twice [] = refl
trim_right_twice (c ∷ s) = trim_right-cons_trimmed c (trim_right s) (trim_right_twice s)

trim_right-newline : (s : String) → trim_right (s ++ "\n") ≡ trim_right s
unfolding trim_right is_space
trim_right-newline [] = refl
trim_right-newline (c ∷ s) =
    ap trim_right (cons-append c s "\n") ∙ ap (cons_trimmed c) (trim_right-newline s)

pub trim_space_twice : (s : String) → trim_space (trim_space s) ≡ trim_space s
unfolding trim_space
trim_space_twice s =
    ap trim_right (sym (trim_right-trim_left (trim_left s)))
    ∙ trim_right_twice (trim_left (trim_left s))
    ∙ ap trim_right (trim_left_twice s)

pub trim_space-newline : (s : String) → trim_space (s ++ "\n") ≡ trim_space s
unfolding trim_space
trim_space-newline s =
    trim_right-trim_left (s ++ "\n")
    ∙ ap trim_left (trim_right-newline s)
    ∙ sym (trim_right-trim_left s)
