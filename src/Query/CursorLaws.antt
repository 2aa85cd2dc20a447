-- ===== src/Query/CursorLaws.antt =====
-- backend/internal/store/articles_query.go: a token that Encode made is read back by DecodeCursor.
use afghanistan_news.Base.{
  ℕ, true, false, some, [], ◌∷◌, ◌++◌, ◌≡◌, refl, ap, ◌≢◌, ◌==◌, All, arith,
}
use afghanistan_news.Query.Cursor.{
  Bytes, Codec, Cursor, bar, encode, split_bar, at, decode_payload, decode_cursor,
}

-- What is documented of the two packages: a decoder undoes its encoder, a number is printed with no
-- bar, and the code of some bytes is not blank as the empty text is.
pub record IsCodec (k : Codec) : Type 0 where
  pub undone : (bs : Bytes) → k.decode64 (k.encode64 bs) ≡ some bs
  pub read_back : (n : ℕ) → k.scan_int (k.format_int n) ≡ some n
  pub no_bar : (n : ℕ) → All (λ c. (c == bar) ≡ false) (k.format_int n)
  pub empty_blank : k.is_blank [] ≡ true
  pub visible : (bs : Bytes) → bs ≢ [] → k.is_blank (k.encode64 bs) ≡ false

split_bar-append :
    (stamp id : Bytes)
    → All (λ c. (c == bar) ≡ false) stamp
    → split_bar (stamp ++ (bar ∷ id)) ≡ some (stamp, id)
unfolding split_bar
split_bar-append [] id h = refl
split_bar-append (c ∷ stamp) id h = rw (h.0, split_bar-append stamp id h.1) refl

not_empty : (stamp id : Bytes) → (stamp ++ (bar ∷ id)) ≢ []
not_empty [] id e = cc
not_empty (c ∷ stamp) id e = cc

-- With a codec that its decoder undoes, a cursor survives its token, whatever bytes its id has,
-- bars included.
pub decode_cursor-encode :
    (k : Codec) (c : Cursor) → IsCodec k → decode_cursor k (encode k c) ≡ at c
unfolding decode_cursor encode decode_payload
decode_cursor-encode k c h = ground (
  arith,
  h.visible (k.format_int c.published_at ++ (bar ∷ c.id)) (not_empty _ c.id),
  h.undone (k.format_int c.published_at ++ (bar ∷ c.id)),
  split_bar-append (k.format_int c.published_at) c.id (h.no_bar c.published_at),
  h.read_back c.published_at,
)

shape : (bs : Bytes) → bs ≢ [] → (x : ℕ) × (xs : Bytes) × (bs ≡ x ∷ xs)
shape [] n = absurd (n refl)
shape (x ∷ xs) n = (x, xs, refl)

-- A token is not the empty text, by which a page says that it is the last.
pub encode_shape :
    (k : Codec) (c : Cursor) → IsCodec k → (x : ℕ) × (xs : Bytes) × (encode k c ≡ x ∷ xs)
unfolding encode
encode_shape k c h = shape (k.encode64 (k.format_int c.published_at ++ (bar ∷ c.id))) (λ e.
    cc (h.visible _ (not_empty (k.format_int c.published_at) c.id), h.empty_blank, ap k.is_blank e))
