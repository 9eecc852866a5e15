-- ===== src/Store/Memory/Keys.antt =====
-- The map key `module + "\x00" + fingerprint`, and the map operations of MemStore.
use Prim.Native.Char.{Char, code}
use Prim.Native.String.{[], ◌∷◌, ◌++◌}
use text.Mathlib.TextEquality.{Char-path}
use mathlib.Core.Path.{ap₂}
use text.Mathlib.TextLemmas.{nil-append, cons-append, append_cancel_left}
use certlight.Base.{
  ℕ, ◌≡◌, refl, sym, ◌∙◌, ap, String, Bool, true, ◌&&◌, not, arith, ◌==◌, eq_iff, eqb, text_refl,
  text_cases, inl, inr,
}
use certlight.Store.Memory.{key}

-- A module id that holds no NUL character.
unfoldable pub no_nul : String → Bool
no_nul [] = true
no_nul (c ∷ s) = not (eqb (code c) 0) && no_nul s

abbrev head_code : String → ℕ
head_code [] = 1
head_code (c ∷ s) = code c

abbrev tail_of : String → String
tail_of [] = []
tail_of (c ∷ s) = s

abbrev nul : Char
nul = "\0"

key_cons : (c : Char) (m f : String) → key (c ∷ m) f ≡ c ∷ key m f
unfolding key
key_cons c m f = cons-append c m ("\0" ++ f)

key_nil : (f : String) → key [] f ≡ "\0" ++ f
unfolding key
key_nil f = nil-append ("\0" ++ f)

nul_cons : (f : String) (c : Char) (t : String) → "\0" ++ f ≡ c ∷ t → code c ≡ 0
nul_cons f c t h = sym (ap head_code (sym (cons-append nul [] f) ∙ h))

-- Keys are equal only for equal modules and fingerprints.
pub key-injective :
    (m n f g : String) → no_nul m ≡ true → no_nul n ≡ true → key m f ≡ key n g → (m ≡ n) × (f ≡ g)
unfolding no_nul
key-injective [] [] f g p q h =
    (refl, append_cancel_left "\0" f g (sym (key_nil f) ∙ h ∙ key_nil g))
key-injective [] (c ∷ n) f g p q h =
    let z = nul_cons f c (key n g) (sym (key_nil f) ∙ h ∙ key_cons c n g) in ground arith
key-injective (c ∷ m) [] f g p q h =
    let z = nul_cons g c (key m f) (sym (key_nil g) ∙ sym h ∙ key_cons c m f) in ground arith
key-injective (c ∷ m) (d ∷ n) f g p q h =
    let e = sym (key_cons c m f) ∙ h ∙ key_cons d n g in
    let (r, s) = key-injective m n f g (ground arith) (ground arith) (ap tail_of e) in
    (ap₂ ◌∷◌ (Char-path c d (ap head_code e)) r, s)

-- The test of two keys is the test of their parts.
pub key-eq :
    (m n f g : String)
    → no_nul m ≡ true
    → no_nul n ≡ true
    → (key m f == key n g) ≡ (m == n && f == g)
key-eq m n f g p q = elim (text_cases (key m f) (key n g)) [
  | inl e ↦
      let (a, b) = key-injective m n f g p q e in
      rw (a, b, text_refl (key n g), text_refl n, text_refl g)
  | inr ne ↦ elim (text_cases m n) [
    | inl a ↦ elim (text_cases f g) [
      | inl b ↦ ground (arith, eq_iff (key m f) (key n g), ap₂ key a b)
      | inr b ↦ rw (ne, b) (ground arith)
    ]
    | inr a ↦ rw (ne, a)
  ]
]
