-- ===== src/Connector/Backfill/Paging.antt =====
-- What a page of `FetchMessages` and the cursor that it answers leave for the next page.
use whatsapp_matrix_bridge.Common.{
  ℕ, suc, ◌+◌, ◌<◌, ◌^◌, ◌≡◌, refl, sym, ap, ◌∙◌, ◌⊎◌, inl, inr, true, false, Option, some, List,
  [], ◌∷◌, ◌++◌, take, All, All-Perm, All-take, arith, Bytes,
}
use mathlib.Core.Path.{subst}
use mathlib.Core.List.{Perm, reverse}
use mathlib.Core.List.Perm as Perm
use whatsapp_matrix_bridge.Common.Decimal.{format_uint}
use whatsapp_matrix_bridge.Common.Result.{Result, ok, err, ◌>>=◌, ok-inj, Result-cases}
use whatsapp_matrix_bridge.Waid.Jid.{Jid, JidLib}
use whatsapp_matrix_bridge.Waid.Id.{parse_portal_id}
use whatsapp_matrix_bridge.Wadb.Message.{
  chat_at, Row, Chat, UnixTime, at, at_most, Sorter, select, is_between, get_between,
}
use whatsapp_matrix_bridge.Wadb.Conversation.{Conversation}
use whatsapp_matrix_bridge.Wadb.Conversation
use whatsapp_matrix_bridge.Connector.Backfill.{
  Params, Range, Response, FetchError, parse_cursor, range_of, oldest_of, page, messages_of,
  convert_all, respond, answer, fetch_at, fetch_messages,
}
use whatsapp_matrix_bridge.Connector.Backfill.Cut.{Falls, page_split}
use whatsapp_matrix_bridge.Connector.Backfill.Rows.{
  parse_cursor-format_uint, IsStamped, IsStamped-prop, messages_of-Falls, messages_of-take,
  messages_of-Perm, select-All, messages_of-Bounded, oldest_of-bound, admitted,
}

module _ {M : Type 0} (stamp : M → ℕ) where
  -- What a page of messages, newest first, does with them.
  abbrev Complete : {B : Type 0} → (M → Option B) → List M → Response B → Type 0
  Complete {B} parse all response =
      (batch : List M) × (rest : List M) × (converted : List B) × (batch ++ rest ≡ all)
      × (convert_all parse batch ≡ ok converted)
      × (response.messages ≡ reverse converted)
      × ((rest ≡ [])
          ⊎ ((response.has_more ≡ true)
              × ((end : UnixTime) × (parse_cursor response.cursor ≡ some end)
                  × All (λ n. at_most (some end) (stamp n) ≡ true) rest)))

  -- The same, for messages in any order.
  abbrev pub MissesNothing : {B : Type 0} → (M → Option B) → List M → Response B → Type 0
  MissesNothing {B} parse all response =
      (batch : List M) × (rest : List M) × (converted : List B) × Perm (batch ++ rest) all
      × (convert_all parse batch ≡ ok converted)
      × (response.messages ≡ reverse converted)
      × ((rest ≡ [])
          ⊎ ((response.has_more ≡ true)
              × ((end : UnixTime) × (parse_cursor response.cursor ≡ some end)
                  × All (λ n. at_most (some end) (stamp n) ≡ true) rest)))

  respond-Complete :
      {B : Type 0} (parse : M → Option B) (params : Params) (range : Range) (all taken : List M)
      (response : Response B)
      → Falls stamp all
      → All (λ n. stamp n < 2 ^ 63) all
      → take (suc params.count) all ≡ taken
      → respond stamp parse params range taken ≡ ok response
      → Complete parse all response
  unfolding respond convert_all
  respond-Complete parse params range [] [] response f b et er =
      ([], [], [], refl, refl, ap (λ r. r.messages) (sym (ok-inj er)), inl refl)
  respond-Complete parse params range (a ∷ all) [] response f b et er = cc
  respond-Complete {B} parse params range all (m ∷ ms) response f b et er =
      let (rest, split, old, more) = page_split stamp params.count all m ms f et in
      let (kept, has_more) = page stamp params.count m ms in
      elim (Result-cases (convert_all parse kept)) [
        | inr (e, failed) ↦
            let refused : Path (Result FetchError (Response B)) (err e) (ok response) =
              ground (arith, er, failed) in
            cc
        | inl (converted, done) ↦
            let messages : response.messages ≡ reverse converted = ground (arith, er, done) in
            let has : response.has_more ≡ has_more = ground (arith, er, done) in
            let cursor : response.cursor ≡ format_uint (oldest_of stamp m ms) =
              ground (arith, er, done) in
            let bound : oldest_of stamp m ms < 2 ^ 63 = oldest_of-bound stamp m ms (
              subst (All (λ n. stamp n < 2 ^ 63)) et
                (All-take (λ n. stamp n < 2 ^ 63) (suc params.count) all b)) in
            (
              kept,
              rest,
              converted,
              split,
              done,
              messages,
              elim more [
                | inr nothing ↦ inl nothing
                | inl set ↦ inr (
                  has ∙ set,
                  (
                    at (oldest_of stamp m ms),
                    ap parse_cursor cursor ∙ parse_cursor-format_uint (oldest_of stamp m ms) bound,
                    admitted stamp (oldest_of stamp m ms) rest old,
                  ),
                )
              ],
            )
      ]

  module _ {B : Type 0} (sorter : Sorter M) (lib : JidLib) (bridge login : Bytes)
      (parse : Jid → M → Option B) where
    get_between-suc :
        (c : Chat) (range : Range) (n : ℕ) (rows : List (Row M))
        → get_between sorter c range.start range.end (n + 1) rows
          ≡ take (suc n) (sorter.order (select (is_between c range.start range.end) rows))
    unfolding get_between
    get_between-suc c range n rows = let e : n + 1 ≡ suc n = omega arith in rw (e)

    fetch_messages_lem :
        (params : Params) (convs : List Conversation) (rows : List (Row M)) (jid : Jid)
        (range : Range)
        → parse_portal_id lib params.portal_id ≡ ok jid
        → range_of params (ok (Conversation.get (chat_at bridge login jid) convs)) ≡ ok range
        → fetch_messages stamp sorter lib bridge login parse params false false convs rows
          ≡ respond stamp (parse jid) params range (
              messages_of (
                take (suc params.count) (
                  sorter.order
                    (select (is_between (chat_at bridge login jid) range.start range.end) rows))))
    unfolding fetch_messages fetch_at answer
    fetch_messages_lem params convs rows jid range ej er =
        ap (fetch_at stamp sorter lib bridge login parse params false false convs rows) ej
        ∙ ap (λ r. r >>= (λ g. answer stamp sorter lib bridge login parse params false jid g rows))
            er
        ∙ ap (λ (x : List (Row M)). respond stamp (parse jid) params range (messages_of x))
            (get_between-suc (chat_at bridge login jid) range params.count rows)

    -- A page misses nothing. Where the timestamp column of each row holds the timestamp of its
    -- message, below 2 ^ 63, and the database answers, a page that FetchMessages answers holds the
    -- converted messages of a batch in reverse; the batch and the messages left out are together
    -- the messages of the range that was asked for; and either none is left out, or HasMore is set
    -- and the cursor of the page is a time that admits each that is left out.
    pub fetch_messages_complete :
        (params : Params) (convs : List Conversation) (rows : List (Row M)) (jid : Jid)
        (range : Range) (response : Response B)
        → All (IsStamped stamp) rows
        → parse_portal_id lib params.portal_id ≡ ok jid
        → range_of params (ok (Conversation.get (chat_at bridge login jid) convs)) ≡ ok range
        → fetch_messages stamp sorter lib bridge login parse params false false convs rows
          ≡ ok response
        → MissesNothing
            (parse jid)
            (messages_of
              (select (is_between (chat_at bridge login jid) range.start range.end) rows))
            response
    fetch_messages_complete params convs rows jid range response h ej er ef =
        let c = chat_at bridge login jid in
        let chosen = select (is_between c range.start range.end) rows in
        let ordered = sorter.order chosen in
        let stamped : All (IsStamped stamp) ordered =
          All-Perm (IsStamped stamp) (IsStamped-prop stamp) (Perm.symm (sorter.order-perm chosen))
            (select-All stamp (is_between c range.start range.end) rows h) in
        let same : respond stamp (parse jid) params range
              (take (suc params.count) (messages_of ordered))
            ≡ ok response =
          ap (respond stamp (parse jid) params range)
            (sym (messages_of-take stamp (suc params.count) ordered))
          ∙ sym (fetch_messages_lem params convs rows jid range ej er)
          ∙ ef in
        let (batch, rest, converted, split, done, messages, left) =
          respond-Complete (parse jid) params range (messages_of ordered)
            (take (suc params.count) (messages_of ordered)) response
            (messages_of-Falls stamp ordered (sorter.order-Descends chosen) stamped)
            (messages_of-Bounded stamp ordered stamped) refl same in
        (
          batch,
          rest,
          converted,
          subst (λ (x : List M). Perm x (messages_of chosen)) (sym split)
              (messages_of-Perm stamp ordered chosen (sorter.order-perm chosen)),
          done,
          messages,
          left,
        )
