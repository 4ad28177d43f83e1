-- ===== src/Connector/MediaRequest/Keyed.antt =====
-- The table of media requests by its primary key, and the requests that are open in it.
use whatsapp_matrix_bridge.Common.{
  ◌≡◌, refl, ◌∙◌, Bool, true, false, ◌||◌, inl, inr, Bool-cases, List, [], ◌∷◌, arith, All,
  if◌then◌else◌, Bytes, beq_iff, Bytes-discrete,
}
use whatsapp_matrix_bridge.Wadb.MediaRequest.{
  MediaRequest, same_key, upsert, is_unrequested, get_unrequested,
}

unfoldable pub has_key : MediaRequest → List MediaRequest → Bool
has_key r [] = false
has_key r (s ∷ rows) = same_key s r || has_key r rows

-- No two rows have one primary key.
abbrev pub IsKeyed : List MediaRequest → Type 0
IsKeyed [] = Unit {0}
IsKeyed (r ∷ rows) = (has_key r rows ≡ false) × IsKeyed rows

-- The requests with another key.
pub without : MediaRequest → List MediaRequest → List MediaRequest
without x [] = []
without x (r ∷ rows) = let rest = without x rows in if same_key r x then rest else r ∷ rest

same_key_trans : (r s t : MediaRequest) → same_key s r ≡ true → same_key t r ≡ same_key t s
unfolding same_key
same_key_trans r s t h = ground (
  arith,
  beq_iff Bytes-discrete s.bridge_id r.bridge_id,
  beq_iff Bytes-discrete s.user_login_id r.user_login_id,
  beq_iff Bytes-discrete s.message_id r.message_id,
)

has_key-same :
    (r s : MediaRequest) (rows : List MediaRequest)
    → same_key s r ≡ true
    → has_key r rows ≡ has_key s rows
unfolding has_key
has_key-same r s [] h = refl
has_key-same r s (t ∷ rows) h = ground (arith, same_key_trans r s t h, has_key-same r s rows h)

-- A saved row keeps the key of the old one.
abbrev saved : MediaRequest → MediaRequest → MediaRequest
saved r old = record old { media_key = r.media_key; status = r.status; error = r.error }

has_key-upsert :
    (r t : MediaRequest) (rows : List MediaRequest)
    → has_key t rows ≡ false
    → same_key r t ≡ false
    → has_key t (upsert r rows) ≡ false
unfolding has_key upsert
has_key-upsert r t [] h n = ground arith
has_key-upsert r t (s ∷ rows) h n =
    let kept : same_key (saved r s) t ≡ same_key s t = unfold same_key in refl in
    ground (arith, has_key-upsert r t rows, kept)

same_key_symm : (r s : MediaRequest) → same_key r s ≡ same_key s r
unfolding same_key
same_key_symm r s = ground (
  arith,
  beq_iff Bytes-discrete r.bridge_id s.bridge_id,
  beq_iff Bytes-discrete s.bridge_id r.bridge_id,
  beq_iff Bytes-discrete r.user_login_id s.user_login_id,
  beq_iff Bytes-discrete s.user_login_id r.user_login_id,
  beq_iff Bytes-discrete r.message_id s.message_id,
  beq_iff Bytes-discrete s.message_id r.message_id,
)

has_key-saved :
    (r s : MediaRequest) (rows : List MediaRequest) → has_key (saved r s) rows ≡ has_key s rows
unfolding has_key same_key
has_key-saved r s [] = refl
has_key-saved r s (t ∷ rows) = ground (arith, has_key-saved r s rows)

pub upsert-IsKeyed :
    (r : MediaRequest) (rows : List MediaRequest) → IsKeyed rows → IsKeyed (upsert r rows)
unfolding upsert
upsert-IsKeyed r [] k = unfold has_key in (refl, tt)
upsert-IsKeyed r (s ∷ rows) (new, k) = elim (Bool-cases (same_key s r)) [
  | inl e ↦ rw e (has_key-saved r s rows ∙ new, k)
  | inr e ↦ rw e (has_key-upsert r s rows new (same_key_symm r s ∙ e), upsert-IsKeyed r rows k)
]

module _ (bridge login : Bytes) where
  abbrev pub IsOfLogin : MediaRequest → Type 0
  IsOfLogin r = (r.bridge_id ≡ bridge) × (r.user_login_id ≡ login)

  get_unrequested-without_stored :
      (r : MediaRequest) (rows : List MediaRequest)
      → has_key r rows ≡ false
      → without r (get_unrequested bridge login rows) ≡ get_unrequested bridge login rows
  unfolding has_key without get_unrequested
  get_unrequested-without_stored r [] h = refl
  get_unrequested-without_stored r (s ∷ rows) h =
      ground (arith, get_unrequested-without_stored r rows)

  -- Saving a request that is not open takes it off the open ones, and changes no other.
  pub get_unrequested-upsert :
      (r : MediaRequest) (rows : List MediaRequest)
      → IsKeyed rows
      → is_unrequested r.status ≡ false
      → get_unrequested bridge login (upsert r rows) ≡ without r (get_unrequested bridge login rows)
  unfolding upsert get_unrequested without
  get_unrequested-upsert r [] k h = ground arith
  get_unrequested-upsert r (s ∷ rows) (new, k) h = ground (
    arith,
    get_unrequested-upsert r rows k h,
    has_key-same r s rows,
    get_unrequested-without_stored r rows,
  )

  pub get_unrequested-IsOfLogin :
      (rows : List MediaRequest) → All IsOfLogin (get_unrequested bridge login rows)
  unfolding get_unrequested
  get_unrequested-IsOfLogin [] = tt
  get_unrequested-IsOfLogin (r ∷ rows) = ground (
    arith,
    get_unrequested-IsOfLogin rows,
    beq_iff Bytes-discrete r.bridge_id bridge,
    beq_iff Bytes-discrete r.user_login_id login,
  )

unfoldable pub without_all : List MediaRequest → List MediaRequest → List MediaRequest
without_all [] ys = ys
without_all (x ∷ xs) ys = without_all xs (without x ys)

-- Each of the second requests has the key of one of the first.
abbrev Covers : List MediaRequest → List MediaRequest → Type 0
Covers xs = All (λ y. has_key y xs ≡ true)

Covers-without :
    (x : MediaRequest) (xs ys : List MediaRequest) → Covers (x ∷ xs) ys → Covers xs (without x ys)
unfolding without has_key
Covers-without x xs [] h = tt
Covers-without x xs (y ∷ ys) (h, hs) = ground (arith, Covers-without x xs ys hs, same_key_symm x y)

pub without_all-Covers : (xs ys : List MediaRequest) → Covers xs ys → without_all xs ys ≡ []
unfolding without_all
without_all-Covers [] [] h = refl
without_all-Covers [] (y ∷ ys) (h, hs) = unfold has_key in cc
without_all-Covers (x ∷ xs) ys h = without_all-Covers xs (without x ys) (Covers-without x xs ys h)

Covers-cons : (x : MediaRequest) (xs ys : List MediaRequest) → Covers xs ys → Covers (x ∷ xs) ys
unfolding has_key
Covers-cons x xs [] h = tt
Covers-cons x xs (y ∷ ys) (h, hs) = (ground arith, Covers-cons x xs ys hs)

same_key_refl : (r : MediaRequest) → same_key r r ≡ true
unfolding same_key
same_key_refl r = ground (
  arith,
  beq_iff Bytes-discrete r.bridge_id r.bridge_id,
  beq_iff Bytes-discrete r.user_login_id r.user_login_id,
  beq_iff Bytes-discrete r.message_id r.message_id,
)

pub Covers-refl : (xs : List MediaRequest) → Covers xs xs
unfolding has_key
Covers-refl [] = tt
Covers-refl (x ∷ xs) = (ground (arith, same_key_refl x), Covers-cons x xs xs (Covers-refl xs))

pub without-same :
    (x y : MediaRequest) (rows : List MediaRequest)
    → x.bridge_id ≡ y.bridge_id
    → x.user_login_id ≡ y.user_login_id
    → x.message_id ≡ y.message_id
    → without x rows ≡ without y rows
unfolding without same_key
without-same x y [] a b c = refl
without-same x y (r ∷ rows) a b c = ground (arith, without-same x y rows a b c)
