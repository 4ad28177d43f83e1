-- ===== src/Waid/Media/Hex.antt =====
-- `encoding/hex` and the test `isUpperHex` of pkg/waid/mediaid.go.
use whatsapp_matrix_bridge.Common.{
  ℕ, ◌+◌, ◌-◌, ◌*◌, ◌/◌, ◌%◌, ◌<◌, ◌≡◌, refl, Bool, true, ◌&&◌, ◌||◌, Option, none, some, [], ◌∷◌,
  ltb, leb, if◌then◌else◌, arith, Bytes, not,
}

abbrev is_upper_digit : ℕ → Bool
is_upper_digit c = (leb b'0' c && leb c b'9') || (leb b'A' c && leb c b'F')

-- The source ranges over runes; a byte of a multi-byte rune fails the test as its rune does.
unfoldable pub is_upper_hex : Bytes → Bool
is_upper_hex [] = true
is_upper_hex (c ∷ s) = is_upper_digit c && is_upper_hex s

-- `len(id) % 2 == 0`
unfoldable pub is_even : Bytes → Bool
is_even [] = true
is_even (c ∷ s) = not (is_even s)

-- `hex.AppendDecode`: the value of one digit, then the pairs.
unfoldable pub digit_value : ℕ → Option ℕ
digit_value c =
    if leb b'0' c && leb c b'9'
    then some (c - b'0')
    else if leb b'a' c && leb c b'f'
    then some (c - b'a' + 10)
    else if leb b'A' c && leb c b'F'
    then some (c - b'A' + 10)
    else none

unfoldable pub decode : Bytes → Option Bytes
decode [] = some []
decode (h ∷ []) = none
decode (h ∷ l ∷ s) = elim (digit_value h) [
  | none ↦ none
  | some hi ↦ elim (digit_value l) [
    | none ↦ none
    | some lo ↦ elim (decode s) [ none ↦ none | some raw ↦ some ((hi * 16 + lo) ∷ raw) ]
  ]
]

-- `hex.EncodeToString`, in lower case.
lower_digit : ℕ → ℕ
lower_digit v = if ltb v 10 then b'0' + v else b'a' + (v - 10)

unfoldable pub encode : Bytes → Bytes
unfolding lower_digit
encode [] = []
encode (b ∷ raw) = lower_digit (b / 16) ∷ (lower_digit (b % 16) ∷ encode raw)

-- `strings.ToUpper` on ASCII.
upper_byte : ℕ → ℕ
upper_byte c = if leb b'a' c && leb c b'z' then c - 32 else c

unfoldable pub upper : Bytes → Bytes
unfolding upper_byte
upper [] = []
upper (c ∷ s) = upper_byte c ∷ upper s

nibble : ℕ → ℕ
nibble c = if leb c b'9' then c - b'0' else c - 55

nibble-lt : (c : ℕ) → is_upper_digit c ≡ true → nibble c < 16
unfolding nibble
nibble-lt c h = ground arith

digit_value-nibble : (c : ℕ) → is_upper_digit c ≡ true → digit_value c ≡ some (nibble c)
unfolding nibble digit_value
digit_value-nibble c h = ground arith

upper_byte-nibble : (c : ℕ) → is_upper_digit c ≡ true → upper_byte (lower_digit (nibble c)) ≡ c
unfolding nibble upper_byte lower_digit
upper_byte-nibble c h = ground arith

-- One round of decoding two digits and printing their byte.
decode_pair :
    (c d : ℕ) (s raw : Bytes)
    → is_upper_digit c ≡ true
    → is_upper_digit d ≡ true
    → decode s ≡ some raw
    → decode (c ∷ (d ∷ s)) ≡ some ((nibble c * 16 + nibble d) ∷ raw)
unfolding decode
decode_pair c d s raw hc hd e = ground (arith, digit_value-nibble c hc, digit_value-nibble d hd)

upper-encode_pair :
    (c d : ℕ) (raw : Bytes)
    → is_upper_digit c ≡ true
    → is_upper_digit d ≡ true
    → upper (encode ((nibble c * 16 + nibble d) ∷ raw)) ≡ c ∷ (d ∷ upper (encode raw))
unfolding encode upper
upper-encode_pair c d raw hc hd =
    let high : (nibble c * 16 + nibble d) / 16 ≡ nibble c = omega (arith, nibble-lt d hd) in
    let low : (nibble c * 16 + nibble d) % 16 ≡ nibble d = omega (arith, nibble-lt d hd) in
    rw (high, low, upper_byte-nibble c hc, upper_byte-nibble d hd)

upper_hex_cases :
    (c d : ℕ) (s : Bytes)
    → is_upper_hex (c ∷ (d ∷ s)) ≡ true
    → is_even (c ∷ (d ∷ s)) ≡ true
    → (is_upper_digit c ≡ true)
      × (is_upper_digit d ≡ true)
      × (is_upper_hex s ≡ true)
      × (is_even s ≡ true)
unfolding is_upper_hex is_even
upper_hex_cases c d s h e = ground arith

-- Upper-case hexadecimal text of even length is decoded, and printed back as it was.
pub upper-encode-decode :
    (s : Bytes)
    → is_upper_hex s ≡ true
    → is_even s ≡ true
    → (raw : Bytes) × (decode s ≡ some raw) × (upper (encode raw) ≡ s)
upper-encode-decode [] h e = ([], unfold decode in refl, unfold upper encode in refl)
upper-encode-decode (c ∷ []) h e = unfold is_even in cc
upper-encode-decode (c ∷ d ∷ s) h e =
    let (hc, hd, hs, es) = upper_hex_cases c d s h e in
    let (raw, decoded, printed) = upper-encode-decode s hs es in
    (
      (nibble c * 16 + nibble d) ∷ raw,
      decode_pair c d s raw hc hd decoded,
      rw (upper-encode_pair c d raw hc hd, printed),
    )
