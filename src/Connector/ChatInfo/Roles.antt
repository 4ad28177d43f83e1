-- ===== src/Connector/ChatInfo/Roles.antt =====
-- That the member maps of pkg/connector/chatinfo.go follow the groups.
use whatsapp_matrix_bridge.Common.{
  ℕ, ◌≡◌, refl, ap, ◌∙◌, true, false, Option, none, some, List, [], ◌∷◌, if◌then◌else◌, Bytes, beq,
  Bytes-discrete, arith, Bool-cases, inl, inr,
}
use whatsapp_matrix_bridge.Waid.Jid.{Jid, JidLib, is_default_user}
use whatsapp_matrix_bridge.Waid.Id.{make_user_id}
use whatsapp_matrix_bridge.Connector.Ids.{Login, make_event_sender}
use whatsapp_matrix_bridge.Connector.ChatInfo.{ChatMember, member_of, MemberMap, put, lookup}
use whatsapp_matrix_bridge.Connector.ChatInfo.Group.{
  admin_pl, default_pl, Participant, GroupInfo, GroupChange, put_participants,
  member_of_participant, put_all, joins, promotes, demotes, leaves, list_of, changed_members,
  wrap_group_info,
}
use whatsapp_matrix_bridge.Connector.ChatInfo.Change.{wrap_group_info_change, has_members}
use whatsapp_matrix_bridge.Connector.ChatInfo.Rooms.{
  lookup-put, Room, become, update, nobody, info_map, changed_map, changed_map-lem, is_user,
  level_in, each, enter, level_after, room_after, level_after_all,
}

module _ (lib : JidLib) (login : Login) (room : Room) (q : Bytes) where
  make_user_id-beq :
      (j : Jid)
      → is_default_user j.server ≡ true
      → beq Bytes-discrete (make_user_id j) q ≡ beq Bytes-discrete j.user q
  unfolding make_user_id
  make_user_id-beq j h = ground (arith, h)

  update-put :
      (j : Jid) (m : ChatMember) (members : MemberMap)
      → is_default_user j.server ≡ true
      → update (put (make_user_id j) m members) room q
        ≡ (if is_user q j then become m (room q) else update members room q)
  unfolding update
  update-put j m members h =
      ground (arith, h, lookup-put (make_user_id j) m members q, make_user_id-beq j h)

  update-put_all :
      (change : ChatMember → ChatMember) (f : Option ℕ → Option ℕ) (w : Option ℕ)
      → ((j : Jid) → become (change (member_of (make_event_sender lib login j))) (room q) ≡ w)
      → f w ≡ w
      → (js : List Jid) (members : MemberMap) → f (update members room q) ≡ w
      → update (put_all lib login change js members) room q ≡ each f q js (update members room q)
  unfolding put_all each
  update-put_all change f w becomes fixed [] members start = refl
  update-put_all change f w becomes fixed (j ∷ js) members start =
      elim (Bool-cases (is_default_user j.server)) [
        | inr e ↦ ground (arith, e, update-put_all change f w becomes fixed js members start)
        | inl e ↦
            let m = change (member_of (make_event_sender lib login j)) in
            elim (Bool-cases (is_user q j)) [
              | inl u ↦
                  let now : update (put (make_user_id j) m members) room q ≡ w =
                    ground (arith, e, u, becomes j, update-put j m members e) in
                  ground (
                    arith,
                    e,
                    u,
                    start,
                    fixed,
                    now,
                    update-put_all change f w becomes fixed js (put (make_user_id j) m members),
                  )
              | inr u ↦
                  let now : update (put (make_user_id j) m members) room q ≡ update members room q =
                    ground (arith, e, u, update-put j m members e) in
                  ground (
                    arith,
                    e,
                    u,
                    start,
                    now,
                    update-put_all change f w becomes fixed js (put (make_user_id j) m members),
                  )
            ]
      ]

  update-put_participants :
      (ps : List Participant) (members : MemberMap)
      → update (put_participants lib login ps members) room q
        ≡ level_in q ps (update members room q)
  unfolding put_participants level_in become member_of_participant
  update-put_participants [] members = refl
  update-put_participants (p ∷ ps) members = elim (Bool-cases (is_default_user p.jid.server)) [
    | inr e ↦ ground (arith, e, update-put_participants ps members)
    | inl e ↦
        let m = member_of_participant lib login p in
        ground (
          arith,
          e,
          update-put_participants ps (put (make_user_id p.jid) m members)
              ∙ ap (level_in q ps) (update-put p.jid m members e),
        )
  ]

  update-joins :
      (js : List Jid) → update (put_all lib login joins js []) room q ≡ each enter q js (room q)
  unfolding become update lookup
  update-joins js =
      update-put_all joins enter (enter (room q)) (λ j. ground arith) (ground arith) js [] refl

  update-changed_members :
      (evt : GroupChange)
      → update (changed_members lib login evt) room q ≡ level_after q evt (room q)
  unfolding changed_members level_after become
  update-changed_members evt =
      update-put_all leaves (λ l. none) none (λ j. refl) refl (list_of evt.left) _ refl
      ∙ ap (each (λ l. none) q (list_of evt.left)) (
          update-put_all demotes (λ l. some default_pl) (some default_pl) (λ j. refl) refl
            (list_of evt.demoted) _ refl
          ∙ ap (each (λ l. some default_pl) q (list_of evt.demoted)) (
              update-put_all promotes (λ l. some admin_pl) (some admin_pl) (λ j. refl) refl
                (list_of evt.promoted) _ refl
              ∙ ap (each (λ l. some admin_pl) q (list_of evt.promoted))
                  (update-joins (list_of evt.joined))))

  level_after-none :
      (evt : GroupChange) (old : Option ℕ) → has_members evt ≡ false → level_after q evt old ≡ old
  unfolding level_after each has_members
  level_after-none evt old h = ground (arith, h)

  update-wrap_group_info_change :
      (evt : GroupChange)
      → update (changed_map (wrap_group_info_change lib login evt)) room q
        ≡ level_after q evt (room q)
  unfolding update lookup
  update-wrap_group_info_change evt = elim (Bool-cases (has_members evt)) [
    | inl e ↦ ground (arith, e, changed_map-lem lib login evt, update-changed_members evt)
    | inr e ↦ ground (arith, e, changed_map-lem lib login evt, level_after-none evt (room q) e)
  ]

room_after-lem :
    (lib : JidLib) (login : Login) (evts : List GroupChange) (room : Room) (q : Bytes)
    → room_after lib login evts room q ≡ level_after_all q evts (room q)
unfolding room_after level_after_all
room_after-lem lib login [] room q = refl
room_after-lem lib login (evt ∷ evts) room q =
    room_after-lem lib login evts (update (changed_map (wrap_group_info_change lib login evt)) room)
      q
    ∙ ap (level_after_all q evts) (update-wrap_group_info_change lib login room q evt)

-- The members of a room follow the group: after the information on a group and any number of its
-- changes, applied as member maps in order, each user has the power level that the participants
-- and the changes give, where those of a change who join come first, then those promoted, then
-- those demoted, and those who leave last; a user has none exactly where the group has them not.
pub room_after-wrap_group_info :
    (lib : JidLib) (login : Login) (info : GroupInfo) (evts : List GroupChange) (q : Bytes)
    → room_after lib login evts (update (info_map (wrap_group_info lib login info)) nobody) q
      ≡ level_after_all q evts (level_in q info.participants none)
unfolding wrap_group_info update lookup
room_after-wrap_group_info lib login info evts q =
    room_after-lem lib login evts (update (info_map (wrap_group_info lib login info)) nobody) q
    ∙ ap (level_after_all q evts) (update-put_participants lib login nobody q info.participants [])
