-- ===== src/Waid/Jid/Plain.antt =====
-- A concrete `JidLib`: `user@server`, split at the first `@`. It shows that what the program relies
-- on can be met, and the concrete inputs use it.
use whatsapp_matrix_bridge.Common.{
  ◌≡◌, refl, ◌≢◌, Bool, true, false, Option, none, some, [], ◌∷◌, ◌++◌, arith, All-append,
  if◌then◌else◌, Bytes, beq, Bytes-discrete, ℕ_discrete, sym, ap, length, length-append,
}
use mathlib.Core.Path.{subst}
use whatsapp_matrix_bridge.Common.Text.{codes, Lacks, cut, cut-append}
use whatsapp_matrix_bridge.Waid.Jid.{
  Server, default_user, hidden_user, group, broadcast, newsletter, messenger, other, IsNamed, Jid,
  new_jid, account, empty_jid, IsPlain, JidLib,
}

abbrev server_text : Server → Bytes
server_text default_user = codes "s.whatsapp.net"
server_text hidden_user = codes "lid"
server_text group = codes "g.us"
server_text broadcast = codes "broadcast"
server_text newsletter = codes "newsletter"
server_text messenger = codes "msgr"
server_text (other s) = s

unfoldable pub read_server : Bytes → Server
read_server s =
    if beq Bytes-discrete s (codes "s.whatsapp.net")
    then default_user
    else if beq Bytes-discrete s (codes "lid")
    then hidden_user
    else if beq Bytes-discrete s (codes "g.us")
    then group
    else if beq Bytes-discrete s (codes "broadcast")
    then broadcast
    else if beq Bytes-discrete s (codes "newsletter")
    then newsletter
    else if beq Bytes-discrete s (codes "msgr")
    then messenger
    else other s

-- Without a user the text is the server's alone.
unfoldable pub print : Bytes → Bytes → Bytes
print [] s = s
print (c ∷ u) s = (c ∷ u) ++ (b'@' ∷ s)

unfoldable pub read : Bytes → Option Jid
read s = elim (cut b'@' s) [
  | none ↦ some (new_jid [] (read_server s))
  | some (u, rest) ↦ some (new_jid u (read_server rest))
]

read_server-server_text : (s : Server) → IsNamed s → read_server (server_text s) ≡ s
unfolding read_server beq Bytes-discrete ℕ_discrete
read_server-server_text default_user h = refl
read_server-server_text hidden_user h = refl
read_server-server_text group h = refl
read_server-server_text broadcast h = refl
read_server-server_text newsletter h = refl
read_server-server_text messenger h = refl
read_server-server_text (other s) h = absurd h

print-user : (u s : Bytes) → u ≢ [] → print u s ≡ u ++ (b'@' ∷ s)
unfolding print
print-user [] s h = absurd (h refl)
print-user (c ∷ u) s h = refl

pub read-print : (j : Jid) → IsPlain j → read (print j.user (server_text j.server)) ≡ some j
unfolding read
read-print j h = ground (
  arith,
  print-user j.user (server_text j.server) h.user_ne_nil,
  cut-append b'@' j.user (server_text j.server) h.no_at,
  read_server-server_text j.server h.named,
)

server_text-Lacks : (s : Server) → IsNamed s → Lacks b':' (server_text s)
server_text-Lacks default_user h = omega arith
server_text-Lacks hidden_user h = omega arith
server_text-Lacks group h = omega arith
server_text-Lacks broadcast h = omega arith
server_text-Lacks newsletter h = omega arith
server_text-Lacks messenger h = omega arith
server_text-Lacks (other s) h = absurd h

pub print-Lacks : (j : Jid) → IsPlain j → Lacks b':' (print j.user (server_text j.server))
print-Lacks j h =
    subst (Lacks b':') (sym (print-user j.user (server_text j.server) h.user_ne_nil)) (
      All-append _ j.user (b'@' ∷ server_text j.server) h.no_colon
        ((λ e. cc), server_text-Lacks j.server h.named))

fake-ne : (u s : Bytes) → u ++ (b'@' ∷ s) ≢ codes "fake"
fake-ne [] s e = ground arith
fake-ne (a ∷ []) s e = ground arith
fake-ne (a ∷ b ∷ []) s e = ground arith
fake-ne (a ∷ b ∷ c ∷ []) s e = ground arith
fake-ne (a ∷ b ∷ c ∷ d ∷ u) s e = omega (arith, ap length e, length-append u (b'@' ∷ s))

pub print-ne_nil : (j : Jid) → IsPlain j → print j.user (server_text j.server) ≢ []
unfolding print
print-ne_nil j h e = ground (arith, e, h.user_ne_nil)

pub print-ne_fake : (j : Jid) → IsPlain j → print j.user (server_text j.server) ≢ codes "fake"
print-ne_fake j h =
    rw (print-user j.user (server_text j.server) h.user_ne_nil)
      (fake-ne j.user (server_text j.server))

unfoldable pub is_empty_server : Server → Bool
is_empty_server (other []) = true
is_empty_server s = false

pub is_empty_server-IsNamed : (s : Server) → IsNamed s → is_empty_server s ≡ false
unfolding is_empty_server
is_empty_server-IsNamed (other s) h = absurd h
is_empty_server-IsNamed _ h = refl

pub read-empty : read (print [] []) ≡ some empty_jid
unfolding read print cut read_server beq Bytes-discrete ℕ_discrete
read-empty = refl

unfoldable pub plain_jids : JidLib
unfolding is_empty_server read print
plain_jids = record {
  to_non_ad = account;
  string_of = λ j. print j.user (server_text j.server);
  parse_jid = read;
  is_empty = λ j. is_empty_server j.server;
  to_non_ad_lem = λ j. refl;
  parse_jid-string_of = read-print;
  string_of-Lacks = print-Lacks;
  string_of-ne_nil = print-ne_nil;
  string_of-ne_fake = print-ne_fake;
  parse_jid-string_of_empty = read-empty;
  is_empty-empty_jid = refl;
  is_empty-IsPlain = λ j h. is_empty_server-IsNamed j.server h.named;
}

-- An account, a group and the status broadcast.
abbrev pub alice : Jid
alice = new_jid (codes "15550001") default_user

abbrev pub friends : Jid
friends = new_jid (codes "120363") group

pub alice-IsPlain : IsPlain alice
alice-IsPlain = record {
  user_ne_nil = λ e. cc;
  no_at = omega arith;
  no_colon = omega arith;
  no_dot = omega arith;
  no_device = refl;
  named = tt;
}

pub friends-IsPlain : IsPlain friends
friends-IsPlain = record {
  user_ne_nil = λ e. cc;
  no_at = omega arith;
  no_colon = omega arith;
  no_dot = omega arith;
  no_device = refl;
  named = tt;
}
