-- ===== src/Wadb/Message/Batches.antt =====
-- `Put` of pkg/connector/wadb/message.go: chunks in one transaction.
use whatsapp_matrix_bridge.Common.{
  ℕ, ◌≡◌, refl, ◌∙◌, ap, sym, Bool, true, false, Bool-cases, inl, inr, List, [], ◌∷◌, ◌++◌, map,
  arith, All, All-append,
}
use mathlib.Core.List.{flatten, map-append}
use whatsapp_matrix_bridge.Common.Result.{ok, err, Result-cases}
use whatsapp_matrix_bridge.Waid.Jid.{JidLib}
use whatsapp_matrix_bridge.Wadb.Message.{
  Row, Tuple, Chat, db_error, has_key, same_key, insert, insert_all, to_row, put_chunks, put,
}
use whatsapp_matrix_bridge.Wadb.Message.Laws.{
  IsKeyed, AllStored, insert_all-IsKeyed, insert_all-AllStored, insert_all_stored,
  insert_all-append,
}
use mathlib.Core.Path.{subst}

-- Chunks that the database takes, all at one time.
abbrev pub accepted : {M : Type 0} → ℕ → List (List (Tuple M)) → List (List (Tuple M) × ℕ × Bool)
accepted now = map (λ chunk. (chunk, now, false))

module _ {M : Type 0} (lib : JidLib) (c : Chat) where
  put_chunks-accepted :
      (now : ℕ) (chunks : List (List (Tuple M))) (rows : List (Row M))
      → put_chunks lib c (accepted now chunks) rows
        ≡ ok (insert_all (map (to_row lib c now) (flatten chunks)) rows)
  unfolding put_chunks flatten
  put_chunks-accepted now [] rows = unfold insert_all in refl
  put_chunks-accepted now (chunk ∷ chunks) rows =
      put_chunks-accepted now chunks (insert_all (map (to_row lib c now) chunk) rows)
      ∙ ap ok (
          sym (
            insert_all-append (map (to_row lib c now) chunk)
              (map (to_row lib c now) (flatten chunks)) rows)
          ∙ ap (λ (rs : List (Row M)). insert_all rs rows)
              (sym (map-append (to_row lib c now) chunk (flatten chunks))))

  -- The chunks leave no trace: `Put` stores what one insertion of all the tuples would store.
  pub put-accepted :
      (now : ℕ) (chunks : List (List (Tuple M))) (rows : List (Row M))
      → put lib c (accepted now chunks) rows
        ≡ (insert_all (map (to_row lib c now) (flatten chunks)) rows, true)
  unfolding put
  put-accepted now chunks rows = rw (put_chunks-accepted now chunks rows, put)

  -- Whether a row is stored does not depend on the time of its insertion.
  has_key-to_row :
      (now later : ℕ) (t : Tuple M) (rows : List (Row M))
      → has_key (to_row lib c later t) rows ≡ has_key (to_row lib c now t) rows
  unfolding has_key same_key to_row
  has_key-to_row now later t [] = refl
  has_key-to_row now later t (s ∷ rows) = ground (arith, has_key-to_row now later t rows)

  AllStored-to_row :
      (now later : ℕ) (ts : List (Tuple M)) (rows : List (Row M))
      → AllStored (map (to_row lib c now) ts) rows
      → AllStored (map (to_row lib c later) ts) rows
  AllStored-to_row now later [] rows h = tt
  AllStored-to_row now later (t ∷ ts) rows (h, hs) =
      (has_key-to_row now later t rows ∙ h, AllStored-to_row now later ts rows hs)

  -- Storing the same messages again, in the same chunks and at whatever time, changes nothing,
  -- where the database takes every chunk.
  pub put_again :
      (now later : ℕ) (chunks : List (List (Tuple M))) (rows : List (Row M))
      → put lib c (accepted later chunks) (put lib c (accepted now chunks) rows).0
        ≡ ((put lib c (accepted now chunks) rows).0, true)
  put_again now later chunks rows =
      let ts = flatten chunks in
      let stored = insert_all (map (to_row lib c now) ts) rows in
      rw (put-accepted now chunks rows) (
        put-accepted later chunks stored
        ∙ ap (λ (x : List (Row M)). (x, true))
            (insert_all_stored (map (to_row lib c later) ts) stored (
              AllStored-to_row now later ts stored
                (insert_all-AllStored (map (to_row lib c now) ts) rows))))

  put_chunks-IsKeyed :
      (chunks : List (List (Tuple M) × ℕ × Bool)) (rows after : List (Row M))
      → IsKeyed rows
      → put_chunks lib c chunks rows ≡ ok after
      → IsKeyed after
  unfolding put_chunks
  put_chunks-IsKeyed [] rows after k e = let same : rows ≡ after = cc in subst IsKeyed same k
  put_chunks-IsKeyed ((chunk, now, true) ∷ chunks) rows after k e = cc
  put_chunks-IsKeyed ((chunk, now, false) ∷ chunks) rows after k e =
      put_chunks-IsKeyed chunks (insert_all (map (to_row lib c now) chunk) rows) after
        (insert_all-IsKeyed (map (to_row lib c now) chunk) rows k) e

  -- Whatever the database refuses, Put keeps the primary key: where no two rows share one, no two
  -- rows share one afterwards.
  pub put-IsKeyed :
      (chunks : List (List (Tuple M) × ℕ × Bool)) (rows : List (Row M))
      → IsKeyed rows
      → IsKeyed (put lib c chunks rows).0
  unfolding put
  put-IsKeyed chunks rows k = elim (Result-cases (put_chunks lib c chunks rows)) [
    | inl (after, e) ↦ rw (e, put) (put_chunks-IsKeyed chunks rows after k e)
    | inr (x, e) ↦ rw (e, put) k
  ]

  put_chunks_refused :
      (front back : List (List (Tuple M) × ℕ × Bool)) (chunk : List (Tuple M)) (now : ℕ)
      (rows : List (Row M))
      → put_chunks lib c (front ++ ((chunk, now, true) ∷ back)) rows ≡ err db_error
  unfolding put_chunks
  put_chunks_refused [] back chunk now rows = refl
  put_chunks_refused ((first, t, true) ∷ front) back chunk now rows = refl
  put_chunks_refused ((first, t, false) ∷ front) back chunk now rows =
      put_chunks_refused front back chunk now (insert_all (map (to_row lib c t) first) rows)

  -- Put is atomic: where the database refuses a chunk, wherever it stands, Put fails, and the
  -- table is as before.
  pub put_refused :
      (front back : List (List (Tuple M) × ℕ × Bool)) (chunk : List (Tuple M)) (now : ℕ)
      (rows : List (Row M))
      → put lib c (front ++ ((chunk, now, true) ∷ back)) rows ≡ (rows, false)
  unfolding put
  put_refused front back chunk now rows = rw (put_chunks_refused front back chunk now rows, put)

  insert-All :
      (P : Row M → Type 0) (r : Row M) (rows : List (Row M))
      → P r
      → All P rows
      → All P (insert r rows)
  unfolding insert
  insert-All P r rows h hs = elim (Bool-cases (has_key r rows)) [
    | inl e ↦ rw (e) hs
    | inr e ↦ rw (e) (All-append P rows (r ∷ []) hs (h, tt))
  ]

  insert_all-All :
      (P : Row M → Type 0) (now : ℕ) (ts : List (Tuple M)) (rows : List (Row M))
      → ((at : ℕ) (t : Tuple M) → P (to_row lib c at t))
      → All P rows
      → All P (insert_all (map (to_row lib c now) ts) rows)
  unfolding insert_all
  insert_all-All P now [] rows h hs = hs
  insert_all-All P now (t ∷ ts) rows h hs =
      insert_all-All P now ts (insert (to_row lib c now t) rows) h
        (insert-All P (to_row lib c now t) rows (h now t) hs)

  put_chunks-All :
      (P : Row M → Type 0) (chunks : List (List (Tuple M) × ℕ × Bool)) (rows after : List (Row M))
      → ((at : ℕ) (t : Tuple M) → P (to_row lib c at t))
      → All P rows
      → put_chunks lib c chunks rows ≡ ok after
      → All P after
  unfolding put_chunks
  put_chunks-All P [] rows after h hs e = let same : rows ≡ after = cc in subst (All P) same hs
  put_chunks-All P ((chunk, now, true) ∷ chunks) rows after h hs e = cc
  put_chunks-All P ((chunk, now, false) ∷ chunks) rows after h hs e =
      put_chunks-All P chunks (insert_all (map (to_row lib c now) chunk) rows) after h
        (insert_all-All P now chunk rows h hs) e

  -- What holds of the rows of the chat and of the rows before holds of the rows after `Put`.
  pub put-All :
      (P : Row M → Type 0) (chunks : List (List (Tuple M) × ℕ × Bool)) (rows : List (Row M))
      → ((at : ℕ) (t : Tuple M) → P (to_row lib c at t))
      → All P rows
      → All P (put lib c chunks rows).0
  unfolding put
  put-All P chunks rows h hs = elim (Result-cases (put_chunks lib c chunks rows)) [
    | inl (after, e) ↦ rw (e, put) (put_chunks-All P chunks rows after h hs e)
    | inr (x, e) ↦ rw (e, put) hs
  ]
