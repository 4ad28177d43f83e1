-- ===== src/Msgconv/Ephemeral.antt =====
-- pkg/msgconv/wa-misc.go, `convertEphemeralSettingMessage`, and `generateContextInfo` of
-- pkg/msgconv/from-matrix.go: the disappearing timer of a portal.
pub mod Latest
pub mod Tests
use whatsapp_matrix_bridge.Common.{
  ℕ, Bool, true, false, Option, none, some, List, [], ◌∷◌, ltb, ◌==◌, if◌then◌else◌, Bytes,
}
use whatsapp_matrix_bridge.Common.Result.{Result, ok, err, ◌>>=◌}
use whatsapp_matrix_bridge.Connector.ChatInfo.{DisappearingSetting, off, after_read}
use whatsapp_matrix_bridge.Waid.Jid.{JidLib}
use whatsapp_matrix_bridge.Waid.Id.{Error, parse_message_id}

-- `portal.Disappear` and `DisappearingTimerSetAt` of its metadata.
pub record Portal : Type 0 where
  pub disappear : DisappearingSetting
  pub set_at : ℕ

-- The fields of the protocol message that are read.
pub record Setting : Type 0 where
  pub expiration : Option ℕ
  pub timestamp : Option ℕ

-- The getters of protobuf: 0 where a field is not set.
abbrev pub get : Option ℕ → ℕ
get none = 0
get (some n) = n

-- A timer of 0 has no type.
setting_of : Setting → DisappearingSetting
setting_of msg = if get msg.expiration == 0 then off else after_read (get msg.expiration)

same_setting : DisappearingSetting → DisappearingSetting → Bool
same_setting off off = true
same_setting (after_read t) (after_read u) = t == u
same_setting _ _ = false

-- `portal.Disappear.Timer`
abbrev pub timer_of : DisappearingSetting → ℕ
timer_of off = 0
timer_of (after_read t) = t

-- `applied` is whether the change was not ignored, `dont_bridge` whether the notice is not bridged.
pub record Notice : Type 0 where
  pub timer : ℕ
  pub applied : Bool
  pub dont_bridge : Bool

unfoldable pub is_newer : Portal → Setting → Bool
is_newer portal msg = elim msg.timestamp [ none ↦ true | some t ↦ ltb portal.set_at t ]

unfoldable pub convert_ephemeral_setting_message : Setting → Portal → Portal × Notice
unfolding setting_of same_setting
convert_ephemeral_setting_message msg portal = (
  if is_newer portal msg
      then record { disappear = setting_of msg; set_at = get msg.timestamp }
      else portal,
  record {
    timer = get msg.expiration;
    applied = is_newer portal msg;
    dont_bridge = same_setting portal.disappear (setting_of msg);
  },
)

-- `waE2E.ContextInfo`: the stanza and the participant are those of the message replied to, and the
-- quoted message is an empty text.
pub record ContextInfo : Type 0 where
  pub stanza_id : Option Bytes
  pub participant : Option Bytes
  pub expiration : Option ℕ
  pub ephemeral_setting_timestamp : Option ℕ

with_timer : Portal → ContextInfo → ContextInfo
with_timer portal info =
    if ltb 0 (timer_of portal.disappear)
    then record info {
      expiration = some (timer_of portal.disappear);
      ephemeral_setting_timestamp = if ltb 0 portal.set_at then some portal.set_at else none;
    }
    else info

abbrev no_context : ContextInfo
no_context = record {
  stanza_id = none;
  participant = none;
  expiration = none;
  ephemeral_setting_timestamp = none;
}

-- The first argument behind the library is the ID of the message replied to, if there is one.
unfoldable pub generate_context_info : JidLib → Option Bytes → Portal → Result Error ContextInfo
unfolding with_timer
generate_context_info lib none portal = ok (with_timer portal no_context)
generate_context_info lib (some reply_to) portal = do
  msg_id ← parse_message_id lib reply_to
  ok (
      with_timer portal (record no_context {
        stanza_id = some msg_id.id;
        participant = some (lib.string_of msg_id.sender);
      }))
