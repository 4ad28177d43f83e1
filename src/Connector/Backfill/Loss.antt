-- ===== src/Connector/Backfill/Loss.antt =====
-- What the callback of a page, `CompleteCallback`, takes out of the table.
use whatsapp_matrix_bridge.Common.{
  ℕ, ◌<◌, ◌≤◌, ◌≡◌, inl, inr, Bool, false, ◌&&◌, not, Bool-cases, Option, some, List, [], ◌∷◌, leb,
  ◌==◌, length, All, arith,
}
use mathlib.Core.List.{reverse}
use whatsapp_matrix_bridge.Common.Result.{Result, ok, err, Result-cases}
use whatsapp_matrix_bridge.Wadb.Message.{
  Row, Chat, is_in, select, delete_between, delete_all_in_chat,
}
use whatsapp_matrix_bridge.Connector.Backfill.{
  Params, Range, Response, FetchError, BackfillConfig, oldest_of, cut_oldest, page, convert_all,
  respond, complete,
}
use whatsapp_matrix_bridge.Connector.Backfill.Cut.{Falls, cut_oldest_newer}

module _ {M : Type 0} where
  -- Rows of a chat at a time.
  abbrev pub is_at : Chat → ℕ → Row M → Bool
  is_at c t r = is_in c r && r.timestamp == t

  delete_all_in_chat-gone :
      (c : Chat) (t : ℕ) (rows : List (Row M))
      → All (λ r. is_at c t r ≡ false) (delete_all_in_chat c rows)
  unfolding delete_all_in_chat select
  delete_all_in_chat-gone c t [] = tt
  delete_all_in_chat-gone c t (r ∷ rows) = elim (Bool-cases (is_in c r)) [
    | inl e ↦ rw (e) (delete_all_in_chat-gone c t rows)
    | inr e ↦ rw (e) (ground (arith, e), delete_all_in_chat-gone c t rows)
  ]

  delete_between-gone :
      (c : Chat) (newest t : ℕ) (rows : List (Row M))
      → t ≤ newest
      → All (λ r. is_at c t r ≡ false) (delete_between c newest t rows)
  unfolding delete_between select
  delete_between-gone c newest t [] h = tt
  delete_between-gone c newest t (r ∷ rows) h =
      elim (Bool-cases (is_in c r && (leb r.timestamp newest && leb t r.timestamp))) [
        | inl e ↦ rw (e) (delete_between-gone c newest t rows h)
        | inr e ↦ rw (e) (ground (arith, e, h), delete_between-gone c newest t rows h)
      ]

  complete-gone :
      {B : Type 0} (config : BackfillConfig) (c : Chat) (response : Response B) (newest oldest : ℕ)
      (rows : List (Row M))
      → oldest ≤ newest
      → response.deletes ≡ some (newest, oldest)
      → All (λ r. is_at c oldest r ≡ false) (complete config c response rows)
  unfolding complete
  complete-gone config c response newest oldest rows h e =
      rw (e) (elim (Bool-cases (not config.queue_enabled && not config.will_paginate_manually)) [
        | inl off ↦ rw (off) (delete_all_in_chat-gone c oldest rows)
        | inr on ↦ rw (on) (delete_between-gone c newest oldest rows h)
      ])

  oldest_of-Falls :
      (stamp : M → ℕ) (m : M) (ms : List M) → Falls stamp (m ∷ ms) → oldest_of stamp m ms ≤ stamp m
  unfolding oldest_of
  oldest_of-Falls stamp m [] f = omega arith
  oldest_of-Falls stamp m (n ∷ ms) f = omega (arith, f.0.0, oldest_of-Falls stamp n ms f.1)

  -- The page has the kept messages alone, which are newer than a time, and the table after it has
  -- no row of that time.
  abbrev pub Loses :
      {B : Type 0}
      → (M → ℕ)
      → (M → Option B)
      → List M
      → ℕ
      → Chat
      → Response B
      → List (Row M)
      → Type 0
  Loses {B} stamp parse kept t c response after =
      (converted : List B) × (convert_all parse kept ≡ ok converted)
      × (response.messages ≡ reverse converted)
      × All (λ n. t < stamp n) kept
      × All (λ r. is_at c t r ≡ false) after

  -- Where a page of messages from the newest to the oldest is cut, the messages at its oldest
  -- timestamp are not in the response, which holds the converted messages that are newer, in
  -- reverse, and nothing else, and yet the callback leaves no row of the chat with that timestamp
  -- in the table, whatever the configuration.
  pub respond_loss :
      {B : Type 0} (stamp : M → ℕ) (parse : M → Option B) (params : Params) (range : Range) (m : M)
      (ms kept : List M) (response : Response B) (config : BackfillConfig) (c : Chat)
      (rows : List (Row M))
      → Falls stamp (m ∷ ms)
      → params.count < length (m ∷ ms)
      → cut_oldest stamp (oldest_of stamp m ms) (m ∷ ms) ≡ some kept
      → respond stamp parse params range (m ∷ ms) ≡ ok response
      → Loses stamp parse kept (oldest_of stamp m ms) c response (complete config c response rows)
  unfolding respond page
  respond_loss {B} stamp parse params range m ms kept response config c rows f long cut er =
      elim (Result-cases (convert_all parse kept)) [
        | inr (e, failed) ↦
            let refused : Path (Result FetchError (Response B)) (err e) (ok response) =
              ground (arith, er, failed, long, cut) in
            cc
        | inl (converted, done) ↦
            let messages : response.messages ≡ reverse converted =
              ground (arith, er, done, long, cut) in
            let deletes : response.deletes ≡ some (stamp m, oldest_of stamp m ms) =
              ground (arith, er, done, long, cut) in
            (
              converted,
              done,
              messages,
              cut_oldest_newer stamp (oldest_of stamp m ms) (m ∷ ms) kept f cut,
              complete-gone config c response (stamp m) (oldest_of stamp m ms) rows
                  (oldest_of-Falls stamp m ms f) deletes,
            )
      ]
