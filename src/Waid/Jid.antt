-- ===== src/Waid/Jid.antt =====
-- WhatsApp JIDs, as `go.mau.fi/whatsmeow/types` gives them to the program. The fields are those
-- that the program reads or sets. The library's functions on JIDs are the record `JidLib`.
pub mod Plain
use whatsapp_matrix_bridge.Common.{
  ℕ, ◌≡◌, refl, ◌≢◌, Bool, true, false, Option, none, some, List, [], ◌∷◌, ◌++◌, arith, All,
  if◌then◌else◌, Bytes, beq, beq_iff, Bytes-discrete, ℕ_discrete,
}
use whatsapp_matrix_bridge.Common.Text.{codes, Lacks, cut, cut-append}

-- The part of a JID behind the `@`: one of the constants that the program names
-- (`types.DefaultUserServer` and so on, which are different texts), or any other text.
pub data Server : Type 0 where
  default_user hidden_user group broadcast newsletter messenger : Server
  other : Bytes → Server

pub record Jid : Type 0 where
  pub user : Bytes
  pub server : Server
  pub device : ℕ

unfoldable pub Server-discrete : Discrete Server
unfolding Bytes-discrete
Server-discrete = hlevel Bytes-discrete

unfoldable pub Jid-discrete : Discrete Jid
unfolding Server-discrete Bytes-discrete ℕ_discrete
Jid-discrete = hlevel (Server-discrete, Bytes-discrete, ℕ_discrete)

-- `types.EmptyJID` is the zero struct.
abbrev pub empty_jid : Jid
empty_jid = record { user = []; server = other []; device = 0 }

-- `types.NewJID`
abbrev pub new_jid : Bytes → Server → Jid
new_jid u s = record { user = u; server = s; device = 0 }

-- The account of a JID: the same JID without its device.
abbrev pub account : Jid → Jid
account j = new_jid j.user j.server

abbrev pub is_default_user : Server → Bool
is_default_user default_user = true
is_default_user s = false

abbrev pub is_hidden_user : Server → Bool
is_hidden_user hidden_user = true
is_hidden_user s = false

abbrev pub is_group : Server → Bool
is_group group = true
is_group s = false

abbrev pub IsNamed : Server → Type 0
IsNamed (other s) = ⊥
IsNamed s = Unit

-- A JID whose text has an unambiguous form: an account (no device) on a server that the program
-- names, with a user part free of the separators.
pub record IsPlain (j : Jid) : Type 0 where
  pub user_ne_nil : j.user ≢ []
  pub no_at : Lacks b'@' j.user
  pub no_colon : Lacks b':' j.user
  pub no_dot : Lacks b'.' j.user
  pub no_device : j.device ≡ 0
  pub named : IsNamed j.server

-- The functions of whatsmeow that the program calls on JIDs, with what it relies on.
pub record JidLib : Type 0 where
  pub to_non_ad : Jid → Jid
  pub string_of : Jid → Bytes
  pub parse_jid : Bytes → Option Jid
  pub is_empty : Jid → Bool
  -- `ToNonAD` drops the device and keeps the rest.
  pub to_non_ad_lem : (j : Jid) → to_non_ad j ≡ account j
  pub parse_jid-string_of : (j : Jid) → IsPlain j → parse_jid (string_of j) ≡ some j
  pub string_of-Lacks : (j : Jid) → IsPlain j → Lacks b':' (string_of j)
  pub string_of-ne_nil : (j : Jid) → IsPlain j → string_of j ≢ []
  pub string_of-ne_fake : (j : Jid) → IsPlain j → string_of j ≢ codes "fake"
  pub parse_jid-string_of_empty : parse_jid (string_of empty_jid) ≡ some empty_jid
  pub is_empty-empty_jid : is_empty empty_jid ≡ true
  pub is_empty-IsPlain : (j : Jid) → IsPlain j → is_empty j ≡ false
