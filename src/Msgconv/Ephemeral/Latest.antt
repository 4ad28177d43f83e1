-- ===== src/Msgconv/Ephemeral/Latest.antt =====
-- Which setting of the disappearing timer lasts.
use whatsapp_matrix_bridge.Common.{
  ℕ, ◌≡◌, refl, ◌≤◌, ◌<◌, ◌⊎◌, inl, inr, some, List, [], ◌∷◌, All, arith, ltb, if◌then◌else◌,
}
use whatsapp_matrix_bridge.Connector.ChatInfo.{off, after_read}
use whatsapp_matrix_bridge.Msgconv.Ephemeral.{
  Portal, Setting, get, setting_of, is_newer, convert_ephemeral_setting_message,
}

-- The portal after the messages, in the order in which they come.
unfoldable pub convert_all : List Setting → Portal → Portal
convert_all [] portal = portal
convert_all (msg ∷ msgs) portal = convert_all msgs (convert_ephemeral_setting_message msg portal).0

abbrev pub HasTime : Setting → Type 0
HasTime msg = (t : ℕ) × (msg.timestamp ≡ some t)

-- The portal is as the message sets it.
pub IsSetBy : Portal → Setting → Type 0
IsSetBy portal msg =
    (portal.set_at ≡ get msg.timestamp)
    × (portal.disappear
        ≡ (if ltb 0 (get msg.expiration) then after_read (get msg.expiration) else off))

pub IsSetByOne : Portal → List Setting → Type 0
IsSetByOne portal [] = ⊥
IsSetByOne portal (msg ∷ msgs) = IsSetBy portal msg ⊎ IsSetByOne portal msgs

-- The latest of the settings, or the old portal where none is later.
pub record IsLatest (old : Portal) (msgs : List Setting) (final : Portal) : Type 0 where
  pub not_before : All (λ msg. get msg.timestamp ≤ final.set_at) msgs
  pub not_earlier : old.set_at ≤ final.set_at
  pub kept_or_set : (final ≡ old) ⊎ IsSetByOne final msgs

convert_one :
    (msg : Setting) (portal : Portal)
    → HasTime msg
    → ((convert_ephemeral_setting_message msg portal).0 ≡ portal)
        × (get msg.timestamp ≤ portal.set_at)
      ⊎ IsSetBy (convert_ephemeral_setting_message msg portal).0 msg
        × (portal.set_at < get msg.timestamp)
unfolding convert_ephemeral_setting_message is_newer setting_of IsSetBy
convert_one msg portal (t, e) = ground (arith, e)

-- The message and what follows it.
convert_step :
    (msg : Setting) (portal final : Portal)
    → HasTime msg
    → (convert_ephemeral_setting_message msg portal).0.set_at ≤ final.set_at
    → (get msg.timestamp ≤ final.set_at)
      × (portal.set_at ≤ final.set_at)
      × (final ≡ (convert_ephemeral_setting_message msg portal).0
          → (final ≡ portal) ⊎ IsSetBy final msg)
unfolding IsSetBy
convert_step msg portal final timed h = ground (arith, h, convert_one msg portal timed)

-- Whatever the order in which settings of the disappearing timer come, if each has a timestamp,
-- the portal ends with one that is not before any of them nor before its old one: it is the old
-- setting, or the timer and the time that one of the messages sets.
pub convert_all-IsLatest :
    (msgs : List Setting) (portal : Portal)
    → All HasTime msgs
    → IsLatest portal msgs (convert_all msgs portal)
unfolding convert_all IsSetByOne
convert_all-IsLatest [] portal h = record {
  not_before = tt;
  not_earlier = omega arith;
  kept_or_set = inl refl;
}
convert_all-IsLatest (msg ∷ msgs) portal (timed, rest) =
    let next = (convert_ephemeral_setting_message msg portal).0 in
    let later = convert_all-IsLatest msgs next rest in
    let (bound, not_earlier, kept) =
      convert_step msg portal (convert_all msgs next) timed later.not_earlier in
    record {
      not_before = (bound, later.not_before);
      not_earlier = not_earlier;
      kept_or_set = elim later.kept_or_set [
        | inr set ↦ inr (inr set)
        | inl e ↦ elim (kept e) [ inl same ↦ inl same | inr set ↦ inr (inl set) ]
      ];
    }
