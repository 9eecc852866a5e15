-- ===== src/Store/Ulid.antt =====
-- ULIDs (store/ulid.go): NewULID and encodeCrockford. A byte is a number below 256, a symbol its
-- index in the alphabet; `crypto/rand` is a parameter. The operands of the `|` that carries from the
-- high word into the low one have no bit in common, so it is their sum.
use Prim.Native.String.{slice, ◌++◌}
use Prim.Native.Nat.pow as Pow
use certlight.Base.{
  ℕ, zero, suc, ◌+◌, ◌*◌, ◌/◌, ◌%◌, ◌^◌, ◌<◌, ◌≤◌, ◌≡◌, ◌∙◌, ap, String, List, [], ◌∷◌, Result, ok,
  err, All, length, arith,
}

abbrev pub crockford : String
crockford = "0123456789ABCDEFGHJKMNPQRSTVWXYZ"

-- `binary.BigEndian.Uint64`, from the value of the bytes before.
unfoldable pub big_endian : ℕ → List ℕ → ℕ
big_endian n [] = n
big_endian n (b ∷ bs) = big_endian (n * 256 + b) bs

-- The low word shifted by 5 bits, with those that leave the high word.
abbrev pub shifted : ℕ → ℕ → ℕ
shifted hi lo = lo / 32 + hi * 2 ^ 59 % 2 ^ 64

-- The loop, which fills the symbols from the last to the first; `n` are left.
unfoldable pub symbols : ℕ → ℕ → ℕ → List ℕ → List ℕ
symbols zero hi lo out = out
symbols (suc n) hi lo out = symbols n (hi / 32) (shifted hi lo) (lo % 32 ∷ out)

abbrev pub show_symbols : List ℕ → String
show_symbols [] = ""
show_symbols (i ∷ is) = slice crockford i (i + 1) ++ show_symbols is

-- Sixteen bytes: those of the two words.
pub record Bytes : Type 0 where
  pub high : List ℕ
  pub low : List ℕ

abbrev pub symbols_of : Bytes → List ℕ
symbols_of b = symbols 26 (big_endian 0 b.high) (big_endian 0 b.low) []

unfoldable pub encode_crockford : Bytes → String
unfolding symbols big_endian
encode_crockford b = show_symbols (symbols_of b)

-- Ten random bytes: those of the high word, and those of the low one.
pub record Entropy : Type 0 where
  pub first : ℕ
  pub second : ℕ
  pub rest : List ℕ

unfoldable pub ulid_bytes : ℕ → Entropy → Bytes
ulid_bytes ms r = record {
  high =
      ms / 2 ^ 40 % 256
      ∷ ms / 2 ^ 32 % 256
      ∷ ms / 2 ^ 24 % 256
      ∷ ms / 2 ^ 16 % 256
      ∷ ms / 2 ^ 8 % 256
      ∷ ms % 256
      ∷ r.first
      ∷ r.second
      ∷ [];
  low = r.rest;
}

-- `ms` is `t.UnixMilli()`.
unfoldable pub new_ulid : ℕ → Result String Entropy → Result String String
unfolding ulid_bytes encode_crockford
new_ulid ms (err x) = err x
new_ulid ms (ok r) = ok (encode_crockford (ulid_bytes ms r))

-- The number that symbols stand for.
abbrev pub value : List ℕ → ℕ → ℕ
value [] n = n
value (i ∷ is) n = value is (n * 32 + i)

-- A number of n symbols is read back from them.
value-symbols :
    (n hi lo : ℕ) (out : List ℕ)
    → hi < 2 ^ 64
    → lo < 2 ^ 64
    → hi * 2 ^ 64 + lo < 32 ^ n
    → value (symbols n hi lo out) 0 ≡ value out (hi * 2 ^ 64 + lo)
unfolding symbols
value-symbols zero hi lo out p q small = ap (value out) (omega (arith, small))
value-symbols (suc n) hi lo out p q small =
    value-symbols n (hi / 32) (shifted hi lo) (lo % 32 ∷ out) (omega (arith, p))
      (omega (arith, p, q)) (omega (arith, p, q, small, Pow.suc 32 n))
    ∙ ap (value out) (omega (arith, p, q))

times_mono : (a b p : ℕ) → a ≤ b → a * p ≤ b * p
times_mono a b p h = grind arith

regrouped : (a p : ℕ) → a * (p * 256) ≡ a * 256 * p
regrouped a p = grind arith

big_endian_bounded :
    (bs : List ℕ) (n : ℕ) → All (λ b. b < 256) bs → big_endian n bs < (n + 1) * 256 ^ length bs
unfolding big_endian
big_endian_bounded [] n h = omega arith
big_endian_bounded (b ∷ bs) n h =
    let p : ℕ = 256 ^ length bs in
    let here : big_endian (n * 256 + b) bs < (n * 256 + b + 1) * p =
      big_endian_bounded bs (n * 256 + b) h.1 in
    let wider : (n * 256 + b + 1) * p ≤ (n + 1) * 256 * p =
      times_mono (n * 256 + b + 1) ((n + 1) * 256) p (omega (arith, h.0)) in
    let whole : (n + 1) * 256 ^ suc (length bs) ≡ (n + 1) * 256 * p =
      ap (λ x. (n + 1) * x) (Pow.suc 256 (length bs)) ∙ regrouped (n + 1) p in
    rw whole (omega (arith, here, wider))

-- For a time below 2 ^ 48 milliseconds, the symbols of an ULID, read as a number, are the time and then
-- the ten random bytes.
pub symbols_of-ulid_bytes :
    (ms : ℕ) (r : Entropy)
    → ms < 2 ^ 48
    → r.first < 256
    → r.second < 256
    → All (λ b. b < 256) r.rest
    → length r.rest ≡ 8
    → value (symbols_of (ulid_bytes ms r)) 0
      ≡ ms * 2 ^ 80 + r.first * 2 ^ 72 + r.second * 2 ^ 64 + big_endian 0 r.rest
unfolding ulid_bytes big_endian
symbols_of-ulid_bytes ms r small a b rest eight =
    let low : big_endian 0 r.rest < 2 ^ 64 = rw eight at (big_endian_bounded r.rest 0 rest) in
    let high : big_endian 0 (ulid_bytes ms r).high ≡ ms * 2 ^ 16 + r.first * 2 ^ 8 + r.second =
      omega (arith, small, a, b) in
    value-symbols 26 (big_endian 0 (ulid_bytes ms r).high) (big_endian 0 r.rest) []
      (omega (arith, high, small, a, b)) low (omega (arith, high, low, small, a, b))
    ∙ omega (arith, high)

-- Ten bytes as the record holds them.
pub record IsEntropy (r : Entropy) : Type 0 where
  pub first_byte : r.first < 256
  pub second_byte : r.second < 256
  pub bytes : All (λ b. b < 256) r.rest
  pub eight : length r.rest ≡ 8

-- Whatever the ten random bytes, an ULID of a later millisecond, below 2 ^ 48, stands for a greater
-- number.
pub symbols_of_in_order :
    (ms later : ℕ) (r q : Entropy)
    → ms < later
    → later < 2 ^ 48
    → IsEntropy r
    → IsEntropy q
    → value (symbols_of (ulid_bytes ms r)) 0 < value (symbols_of (ulid_bytes later q)) 0
symbols_of_in_order ms later r q before small a b =
    let low : big_endian 0 r.rest < 2 ^ 64 = rw a.eight at (big_endian_bounded r.rest 0 a.bytes) in
    rw
      (
        symbols_of-ulid_bytes ms r (omega (arith, before, small)) a.first_byte a.second_byte a.bytes
            a.eight,
        symbols_of-ulid_bytes later q small b.first_byte b.second_byte b.bytes b.eight,
      )
      (omega (arith, before, low, a.first_byte, a.second_byte))
