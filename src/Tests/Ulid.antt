-- ===== src/Tests/Ulid.antt =====
-- ULIDs of two milliseconds.
use certlight.Base.{◌+◌, ◌*◌, ◌^◌, ◌<◌, ◌≡◌, refl, [], ◌∷◌, ok, arith}
use certlight.Store.Ulid.{
  Entropy, IsEntropy, symbols_of, ulid_bytes, big_endian, encode_crockford, symbols, new_ulid,
  value, symbols_of-ulid_bytes, symbols_of_in_order,
}

abbrev zeros : Entropy
zeros = record { first = 0; second = 0; rest = 0 ∷ 0 ∷ 0 ∷ 0 ∷ 0 ∷ 0 ∷ 0 ∷ 0 ∷ [] }

abbrev ones : Entropy
ones = record {
  first = 255;
  second = 255;
  rest = 255 ∷ 255 ∷ 255 ∷ 255 ∷ 255 ∷ 255 ∷ 255 ∷ 255 ∷ [];
}

made : new_ulid 1469918176385 (ok zeros) ≡ ok "01ARYZ6S410000000000000000"
unfolding new_ulid encode_crockford symbols big_endian ulid_bytes
made = refl

zeros-IsEntropy : IsEntropy zeros
zeros-IsEntropy = record {
  first_byte = omega arith;
  second_byte = omega arith;
  bytes = (
    omega arith,
    (
      omega arith,
      (omega arith, (omega arith, (omega arith, (omega arith, (omega arith, (omega arith, tt)))))),
    ),
  );
  eight = refl;
}

ones-IsEntropy : IsEntropy ones
ones-IsEntropy = record {
  first_byte = omega arith;
  second_byte = omega arith;
  bytes = (
    omega arith,
    (
      omega arith,
      (omega arith, (omega arith, (omega arith, (omega arith, (omega arith, (omega arith, tt)))))),
    ),
  );
  eight = refl;
}

symbols_of-ulid_bytes_example :
    value (symbols_of (ulid_bytes 1469918176385 ones)) 0
    ≡ 1469918176385 * 2 ^ 80 + 255 * 2 ^ 72 + 255 * 2 ^ 64 + big_endian 0 ones.rest
symbols_of-ulid_bytes_example =
    symbols_of-ulid_bytes 1469918176385 ones (omega arith) (omega arith) (omega arith)
      ones-IsEntropy.bytes refl

symbols_of_in_order_example :
    value (symbols_of (ulid_bytes 1469918176385 ones)) 0
    < value (symbols_of (ulid_bytes 1469918176386 zeros)) 0
symbols_of_in_order_example =
    symbols_of_in_order 1469918176385 1469918176386 ones zeros (omega arith) (omega arith)
      ones-IsEntropy zeros-IsEntropy
