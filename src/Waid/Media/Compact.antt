-- ===== src/Waid/Media/Compact.antt =====
-- The compact forms of pkg/waid/mediaid.go, one block at a time.
use whatsapp_matrix_bridge.Common.{
  ℕ, ◌^◌, ◌<◌, ◌≡◌, ap, ◌≢◌, ◌%◌, Bool-cases, inl, inr, none, some, ◌∷◌, length, take-length-append,
  drop-length-append, length-append, arith, Bytes,
}
use whatsapp_matrix_bridge.Common.Result.{Result, ok, returns}
use whatsapp_matrix_bridge.Common.Decimal.{parse_uint, format_uint, parse_uint-format_uint}
use whatsapp_matrix_bridge.Waid.Jid.{default_user, group, Jid, new_jid, empty_jid, IsPlain, JidLib}
use whatsapp_matrix_bridge.Waid.Id.{Error}
use whatsapp_matrix_bridge.Waid.Media.{
  compact_msg_id, parse_compact_msg_id, compact_jid, parse_compact_jid, read_block, read_compact,
  write_block,
}
use whatsapp_matrix_bridge.Waid.Media.Hex.{is_upper_hex, is_even, upper-encode-decode}
use whatsapp_matrix_bridge.Waid.Media.Words.{
  big_endian_64, length-big_endian_64, read_64-big_endian_64,
}

-- Every message ID is read back from its compact form, hexadecimal or not.
pub parse_compact_msg_id-compact_msg_id :
    (id : Bytes) → parse_compact_msg_id (compact_msg_id id) ≡ ok id
unfolding parse_compact_msg_id compact_msg_id
parse_compact_msg_id-compact_msg_id id = elim (Bool-cases (is_upper_hex id)) [
  | inr e ↦ rw e
  | inl h ↦ elim (Bool-cases (is_even id)) [
    | inr e ↦ rw (h, e)
    | inl e ↦
        let (raw, decoded, printed) = upper-encode-decode id h e in rw (h, e, decoded) (rw printed)
  ]
]

-- The JIDs that keep their text in the compact form.
pub data IsPackable (j : Jid) : Type 0 where
  numbered : (n : ℕ) → n < 2 ^ 64 → j ≡ new_jid (format_uint n) default_user → IsPackable j
  grouped : j.server ≡ group → j.device ≡ 0 → IsPackable j
  named : IsPlain j → j.server ≢ default_user → IsPackable j
  worded : IsPlain j → parse_uint j.user ≡ none → IsPackable j
  absent : j ≡ empty_jid → IsPackable j

module _ (lib : JidLib) where
  open lib use {string_of, parse_jid-string_of, parse_jid-string_of_empty}

  -- The bytes that the compact form of a JID without a device has.
  unfoldable pub pack : Jid → Bytes
  pack j = elim j.server [
    | default_user ↦ elim (parse_uint j.user) [
      | none ↦ 0 ∷ string_of j
      | some n ↦ 1 ∷ big_endian_64 n
    ]
    | group ↦ 3 ∷ j.user
    | _ ↦ 0 ∷ string_of j
  ]

  pub compact_jid-pack : (j : Jid) → j.device ≡ 0 → compact_jid lib j ≡ returns (pack j)
  unfolding compact_jid pack
  compact_jid-pack j h = ground arith

  pack_numbered :
      (n : ℕ) → n < 2 ^ 64 → pack (new_jid (format_uint n) default_user) ≡ 1 ∷ big_endian_64 n
  unfolding pack
  pack_numbered n h = ground (arith, parse_uint-format_uint n h)

  parse_numbered :
      (n : ℕ)
      → n < 2 ^ 64
      → parse_compact_jid lib (1 ∷ big_endian_64 n) ≡ ok (new_jid (format_uint n) default_user)
  unfolding parse_compact_jid
  parse_numbered n h = ground (arith, length-big_endian_64 n, read_64-big_endian_64 n h)

  parse_text : (j : Jid) → IsPlain j → parse_compact_jid lib (0 ∷ string_of j) ≡ ok j
  unfolding parse_compact_jid
  parse_text j h = rw (parse_jid-string_of j h)

  -- A packable JID is read back from its compact form.
  pub parse_compact_jid-pack : (j : Jid) → IsPackable j → parse_compact_jid lib (pack j) ≡ ok j
  parse_compact_jid-pack j (numbered n h e) = rw e (rw (pack_numbered n h) (parse_numbered n h))
  parse_compact_jid-pack j (grouped e d) = unfold pack parse_compact_jid in ground arith
  parse_compact_jid-pack j (named h ne) =
      unfold pack parse_compact_jid in ground (arith, parse_jid-string_of j h)
  parse_compact_jid-pack j (worded h e) =
      unfold pack parse_compact_jid in ground (arith, parse_jid-string_of j h)
  parse_compact_jid-pack j (absent e) =
      rw e (unfold pack parse_compact_jid in rw parse_jid-string_of_empty)

  pub IsPackable-device : (j : Jid) → IsPackable j → j.device ≡ 0
  IsPackable-device j (numbered n h e) = ap (λ (x : Jid). x.device) e
  IsPackable-device j (grouped e d) = d
  IsPackable-device j (named h ne) = h.no_device
  IsPackable-device j (worded h e) = h.no_device
  IsPackable-device j (absent e) = ap (λ (x : Jid). x.device) e

-- A block is read back with what follows it, if it is shorter than 256 bytes.
pub read_compact-write_block {ℓ} :
    {A : Type ℓ} (f : Bytes → Result Error A) (block rest : Bytes) {a : A}
    → length block < 256
    → f block ≡ ok a
    → read_compact f (write_block block rest) ≡ ok (a, rest)
unfolding read_compact read_block write_block
read_compact-write_block f block rest h e =
    let size : length block % 256 ≡ length block = omega arith in
    rw (size, take-length-append, drop-length-append) (ground (arith, length-append block rest))
