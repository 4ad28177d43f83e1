-- ===== src/Waid/Media/Words.antt =====
-- `binary.BigEndian` of Go's standard library, on 64-bit and 16-bit words.
use whatsapp_matrix_bridge.Common.{
  ℕ, zero, suc, ◌+◌, ◌*◌, ◌/◌, ◌%◌, ◌^◌, ◌<◌, ◌≡◌, refl, ◌∙◌, [], ◌∷◌, length, take, arith, Bytes,
}

-- The `k` lowest bytes of `n`, the highest first, in front of `out`.
unfoldable pub spell : ℕ → ℕ → Bytes → Bytes
spell zero n out = out
spell (suc k) n out = spell k (n / 256) ((n % 256) ∷ out)

unfoldable pub read : ℕ → Bytes → ℕ
read acc [] = acc
read acc (b ∷ s) = read (acc * 256 + b) s

-- `AppendUint64`
unfoldable pub big_endian_64 : ℕ → Bytes
big_endian_64 n = spell 8 n []

-- `Uint64` and `Uint16` read the first bytes of a slice.
unfoldable pub read_64 : Bytes → ℕ
read_64 s = read 0 (take 8 s)

unfoldable pub read_16 : Bytes → ℕ
read_16 s = read 0 (take 2 s)

read-spell : (k n : ℕ) (out : Bytes) → n < 256 ^ k → read 0 (spell k n out) ≡ read n out
unfolding spell read
read-spell zero n out h = let e : n ≡ 0 = omega arith in rw e
read-spell (suc k) n out h = ground (arith, read-spell k (n / 256) ((n % 256) ∷ out) (omega arith))

length-spell : (k n : ℕ) (out : Bytes) → length (spell k n out) ≡ k + length out
unfolding spell
length-spell zero n out = omega arith
length-spell (suc k) n out = omega (arith, length-spell k (n / 256) ((n % 256) ∷ out))

pub length-big_endian_64 : (n : ℕ) → length (big_endian_64 n) ≡ 8
unfolding big_endian_64
length-big_endian_64 n = omega (arith, length-spell 8 n [])

take_all : (k : ℕ) (s : Bytes) → length s ≡ k → take k s ≡ s
take_all zero [] h = refl
take_all zero (c ∷ s) h = absurd (omega arith)
take_all (suc k) [] h = refl
take_all (suc k) (c ∷ s) h = ground (arith, take_all k s)

read-nil : (n : ℕ) → read n [] ≡ n
unfolding read
read-nil n = refl

read_big_endian : (n : ℕ) → n < 2 ^ 64 → read 0 (big_endian_64 n) ≡ n
unfolding big_endian_64
read_big_endian n h = read-spell 8 n [] (omega arith) ∙ read-nil n

-- A 64-bit number is read back from its eight bytes.
pub read_64-big_endian_64 : (n : ℕ) → n < 2 ^ 64 → read_64 (big_endian_64 n) ≡ n
unfolding read_64
read_64-big_endian_64 n h =
    rw (take_all 8 (big_endian_64 n) (length-big_endian_64 n)) (read_big_endian n h)
