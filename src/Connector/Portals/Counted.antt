-- ===== src/Connector/Portals/Counted.antt =====
-- The wait group of `createPortalsFromHistorySync`, and what is queued.
use whatsapp_matrix_bridge.Common.{
  ℕ, suc, ◌+◌, ◌*◌, ◌≡◌, Bool, false, ◌&&◌, not, Bool-cases, inl, inr, Option, List, [], ◌∷◌,
  length, length-append, All, All-append, if◌then◌else◌, Bytes, beq, arith,
}
use whatsapp_matrix_bridge.Waid.Jid.{Jid, JidLib, Jid-discrete}
use whatsapp_matrix_bridge.Wadb.Conversation.{Conversation, get_recent}
use whatsapp_matrix_bridge.Connector.Ids.{Login}
use whatsapp_matrix_bridge.Connector.Inbox.{status_broadcast_jid}
use whatsapp_matrix_bridge.Connector.Portals.{
  Answer, stopped, rate_limited, not_in_group, info_failed, info, Resync, State, Progress, halted,
  finished, attempt, is_unwanted, create_one, create_all, create_portals,
}
use mathlib.Core.Path.{subst}

-- A queued event is not one for the status broadcast, unless that is enabled.
abbrev pub IsWanted : {I : Type 0} → Bool → Resync I → Type 0
IsWanted enabled r = beq Jid-discrete r.chat status_broadcast_jid && not enabled ≡ false

-- Every queued event is wanted, and where the loop goes on, `n` conversations are accounted for:
-- each is done or has an event queued, and not both.
abbrev pub Accounts : {I : Type 0} → Bool → ℕ → Progress I → Type 0
Accounts enabled n (halted s) = All (IsWanted enabled) s.queued
Accounts enabled n (finished s) = (s.dones + length s.queued ≡ n) × All (IsWanted enabled) s.queued

module _ {I : Type 0} (lib : JidLib) (login : Login) (bridge : Bytes) (enabled : Bool) where
  attempt-Accounts :
      (n : ℕ) (conv : Conversation) (a : Answer I) (s : State I)
      → is_unwanted enabled conv ≡ false
      → Accounts enabled n (finished s)
      → Accounts enabled (suc n) (attempt lib login bridge enabled conv a s)
  unfolding attempt is_unwanted
  attempt-Accounts n conv stopped s u h = h.1
  attempt-Accounts n conv (rate_limited a) s u h =
      attempt-Accounts n conv a
        (record s {
          rate_limit_errors = suc s.rate_limit_errors;
          slept = s.slept + (s.rate_limit_errors + suc s.rate_limit_errors * 60);
        })
        u h
  attempt-Accounts n conv not_in_group s u h = (omega (arith, h.0), h.1)
  attempt-Accounts n conv info_failed s u h = (omega (arith, h.0), h.1)
  attempt-Accounts n conv (info i) s u h = (
    omega (arith, h.0, length-append s.queued (_ ∷ [])),
    All-append (IsWanted enabled) s.queued (_ ∷ []) h.1 (u, tt),
  )

  one-Accounts :
      (n : ℕ) (conv : Conversation) (a : Answer I) (s : State I)
      → Accounts enabled n (finished s)
      → Accounts enabled (suc n) (
          if is_unwanted enabled conv
          then finished (record s { dones = suc s.dones })
          else attempt lib login bridge enabled conv a s)
  one-Accounts n conv a s h = elim (Bool-cases (is_unwanted enabled conv)) [
    | inl e ↦ rw (e) (omega (arith, h.0), h.1)
    | inr e ↦ rw (e) (attempt-Accounts n conv a s e h)
  ]

  create_one-Accounts :
      (n : ℕ) (conv : Conversation) (a : Answer I) (s : State I)
      → Accounts enabled n (finished s)
      → Accounts enabled (suc n) (create_one lib login bridge enabled conv a s)
  unfolding create_one
  create_one-Accounts n conv stopped s h = h.1
  create_one-Accounts n conv (rate_limited a) s h = one-Accounts n conv (rate_limited a) s h
  create_one-Accounts n conv not_in_group s h = one-Accounts n conv not_in_group s h
  create_one-Accounts n conv info_failed s h = one-Accounts n conv info_failed s h
  create_one-Accounts n conv (info i) s h = one-Accounts n conv (info i) s h

  create_all-Accounts :
      (answers : Jid → Answer I) (n : ℕ) (convs : List Conversation) (p : Progress I)
      → Accounts enabled n p
      → Accounts enabled (n + length convs) (create_all lib login bridge enabled answers convs p)
  unfolding create_all
  create_all-Accounts answers n [] (halted s) h = h
  create_all-Accounts answers n (conv ∷ convs) (halted s) h = h
  create_all-Accounts answers n [] (finished s) h = (omega (arith, h.0), h.1)
  create_all-Accounts answers n (conv ∷ convs) (finished s) h =
      let e : suc n + length convs ≡ n + suc (length convs) = omega arith in
      subst
        (λ (k : ℕ). Accounts enabled k (
          create_all lib login bridge enabled answers convs
            (create_one lib login bridge enabled conv (answers conv.chat_jid) s)))
        e
        (create_all-Accounts answers (suc n) convs
          (create_one lib login bridge enabled conv (answers conv.chat_jid) s)
          (create_one-Accounts n conv (answers conv.chat_jid) s h))

  -- However the requests for chat information go, rate limits included, no event for the status
  -- broadcast is queued unless that is enabled, and where the loop comes to its end, the calls of
  -- wg.Done and the queued events, each of which calls it once more, are together as many as the
  -- recent conversations that the wait group was given.
  pub create_portals-Accounts :
      (order : List Conversation → List Conversation) (limit : Option ℕ) (answers : Jid → Answer I)
      (rows : List Conversation)
      → Accounts enabled
          (length (get_recent order bridge login.id limit rows))
          (create_portals lib login bridge enabled order limit answers rows)
  unfolding create_portals
  create_portals-Accounts order limit answers rows =
      let convs = get_recent order bridge login.id limit rows in
      let e : 0 + length convs ≡ length convs = omega arith in
      let begun : State I = record {
        rate_limit_errors = 0;
        dones = 0;
        queued = [];
        slept = 0;
        conversations = rows;
      } in
      subst
        (λ (k : ℕ).
          Accounts enabled k (create_all lib login bridge enabled answers convs (finished begun)))
        e (create_all-Accounts answers 0 convs (finished begun) (omega arith, tt))
