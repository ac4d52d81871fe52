-- ===== src/Mcp/HttpFetch/Bounded.antt =====
-- The readers of src/mcp/httpFetch.ts, said without their loop.
use saivage.Base.{
  ℕ, zero, suc, ◌+◌, ◌-◌, ◌≤◌, min, ◌≡◌, refl, sym, ap, ◌∙◌, Bool, true, false, some, List, [], ◌∷◌,
  ◌++◌, arith, length, ltb, all, Bool-cases, inl, inr, length-append, append-nil,
}
use saivage.Mcp.HttpFetch.{
  BodyRead, value, no_value, aborted, BoundedRead, take, read_chunks, join_chunks,
  read_bounded_binary_body, last_chunk, Decoder, read_bounded_text_body, decode_all,
}

-- the bytes that the stream brings
abbrev stream : List BodyRead → List ℕ
stream [] = []
stream (value chunk ∷ reads) = chunk ++ stream reads
stream (_ ∷ reads) = stream reads

abbrev not_aborted : BodyRead → Bool
not_aborted aborted = false
not_aborted _ = true

take-append :
    (n : ℕ) (xs ys : List ℕ) → length xs ≤ n → take n (xs ++ ys) ≡ xs ++ take (n - length xs) ys
take-append n [] ys h = ap (λ m. take m ys) (omega arith)
take-append zero (x ∷ xs) ys h = ground (arith, h)
take-append (suc n) (x ∷ xs) ys h =
    let shorter : n - length xs ≡ suc n - suc (length xs) = omega arith in
    ap (λ zs. x ∷ zs) (take-append n xs ys (omega (arith, h)) ∙ ap (λ m. xs ++ take m ys) shorter)

take-prefix : (n : ℕ) (xs ys : List ℕ) → n ≤ length xs → take n (xs ++ ys) ≡ take n xs
take-prefix zero xs ys h = refl
take-prefix (suc n) [] ys h = ground (arith, h)
take-prefix (suc n) (x ∷ xs) ys h = ap (λ zs. x ∷ zs) (take-prefix n xs ys (omega (arith, h)))

-- what the loop gives, in terms of the stream
record Result (max total : ℕ) (bytes : List ℕ) (r : BoundedRead (List (List ℕ))) : Type 0 where
  content : join_chunks r.body ≡ take (max - total) bytes
  count : r.bytes ≡ total + min (max - total) (length bytes)
  cut : r.truncated ≡ ltb max (total + length bytes)

take_nil : (n : ℕ) → take {A = ℕ} n [] ≡ []
take_nil zero = refl
take_nil (suc n) = refl

last_chunk-Result :
    (max total : ℕ) (chunk more : List ℕ)
    → ltb max (total + length chunk) ≡ true
    → Result max total (chunk ++ more) (last_chunk max chunk total)
last_chunk-Result max total chunk more over = elim (Bool-cases (ltb 0 (max - total))) [
  | inl room ↦ record {
    content = cc (
      room,
      append-nil (take (max - total) chunk),
      take-prefix (max - total) chunk more (ground arith),
    );
    count = ground (arith, length-append chunk more);
    cut = ground (arith, length-append chunk more);
  }
  | inr none_left ↦
      let spent : max - total ≡ 0 = ground arith in
      record {
        content = cc (none_left, spent);
        count = ground (arith, length-append chunk more);
        cut = ground (arith, length-append chunk more);
      }
]

read_chunks-Result :
    (max total : ℕ) (reads : List BodyRead)
    → total ≤ max
    → all not_aborted reads ≡ true
    → (r : BoundedRead (List (List ℕ))) × (read_chunks max total reads ≡ some r)
      × Result max total (stream reads) r
unfolding read_chunks
read_chunks-Result max total [] fits live = (
  record { body = []; bytes = total; truncated = false },
  refl,
  record { content = sym (take_nil (max - total)); count = omega arith; cut = ground arith },
)
read_chunks-Result max total (aborted ∷ reads) fits live = cc live
read_chunks-Result max total (no_value ∷ reads) fits live =
    read_chunks-Result max total reads fits live
read_chunks-Result max total (value chunk ∷ reads) fits live =
    elim (Bool-cases (ltb max (total + length chunk))) [
      | inl over ↦ (
        last_chunk max chunk total,
        cc over,
        last_chunk-Result max total chunk (stream reads) over,
      )
      | inr within ↦
          let (r, h, result) =
            read_chunks-Result max (total + length chunk) reads (ground arith) live in
          (
            record r { body = chunk ∷ r.body },
            cc (within, h),
            record {
              content =
                  let room : max - (total + length chunk) ≡ max - total - length chunk =
                    omega arith in
                  cc (
                    result.content,
                    room,
                    take-append (max - total) chunk (stream reads) (ground arith),
                  );
              count = ground (arith, result.count, length-append chunk (stream reads));
              cut = ground (arith, result.cut, length-append chunk (stream reads));
            },
          )
    ]

-- the stream up to the limit, its size, and whether there was more
abbrev pub prefix : ℕ → List BodyRead → BoundedRead (List ℕ)
prefix max reads = record {
  body = take max (stream reads);
  bytes = min max (length (stream reads));
  truncated = ltb max (length (stream reads));
}

pub read_bounded_binary_body-prefix :
    (max : ℕ) (reads : List BodyRead)
    → all not_aborted reads ≡ true
    → read_bounded_binary_body (some reads) max ≡ some (prefix max reads)
unfolding read_bounded_binary_body
read_bounded_binary_body-prefix max reads live =
    let (r, h, result) = read_chunks-Result max 0 reads (omega arith) live in
    let whole : max - 0 ≡ max = omega arith in
    let count : r.bytes ≡ min max (length (stream reads)) = omega (arith, result.count) in
    let cut : r.truncated ≡ ltb max (length (stream reads)) = ground (arith, result.cut) in
    cc (h, whole, count, cut, result.content)

-- What the standard says of a `TextDecoder`: pieces of a stream may be put together, and texts are joined.
pub record Streams {Text State : Type 0} (decoder : Decoder Text State) : Type 0 where
  pub empty_left : (t : Text) → decoder.append decoder.empty t ≡ t
  pub empty_right : (t : Text) → decoder.append t decoder.empty ≡ t
  pub assoc :
      (t u v : Text) → decoder.append (decoder.append t u) v ≡ decoder.append t (decoder.append u v)
  pub decode_nothing : (s : State) → decoder.decode s [] ≡ (decoder.empty, s)
  pub decode_split :
      (s : State) (xs ys : List ℕ)
      → decoder.decode s (xs ++ ys) ≡ (
        decoder.append (decoder.decode s xs).0 (decoder.decode (decoder.decode s xs).1 ys).0,
        (decoder.decode (decoder.decode s xs).1 ys).1,
      )

module _ {Text State : Type 0} (decoder : Decoder Text State) where
  -- a text with the state behind it, flushed unless it is cut off
  abbrev closing : Bool → Text × State → Text
  closing true (text, state) = text
  closing false (text, state) = decoder.append text (decoder.flush state)

  -- the text of the stream up to the limit
  abbrev pub text_prefix : ℕ → List BodyRead → BoundedRead Text
  text_prefix max reads =
      let r = prefix max reads in
      record {
        body = closing r.truncated (decoder.decode decoder.start r.body);
        bytes = r.bytes;
        truncated = r.truncated;
      }

module _ {Text State : Type 0} (decoder : Decoder Text State) (streams : Streams decoder) where
  decode_all-join_chunks :
      (cut : Bool) (out : Text) (state : State) (chunks : List (List ℕ))
      → decode_all decoder cut out state chunks
        ≡ closing decoder cut (
          decoder.append out (decoder.decode state (join_chunks chunks)).0,
          (decoder.decode state (join_chunks chunks)).1,
        )
  decode_all-join_chunks true out state [] =
      cc (streams.decode_nothing state, streams.empty_right out)
  decode_all-join_chunks false out state [] =
      cc (streams.decode_nothing state, streams.empty_right out)
  decode_all-join_chunks cut out state (c ∷ cs) =
      let piece = decoder.decode state c in
      cc (
        decode_all-join_chunks cut (decoder.append out piece.0) piece.1 cs,
        streams.decode_split state c (join_chunks cs),
        streams.assoc out piece.0 (decoder.decode piece.1 (join_chunks cs)).0,
      )

  -- If the signal is not aborted and the decoder keeps the laws of a streaming decoder,
  -- readBoundedTextBody returns the text of the first maxBytes bytes of the stream, decoded in one
  -- piece and flushed exactly if nothing is cut off, with the number of those bytes and whether
  -- there were more.
  pub read_bounded_text_body-prefix :
      (max : ℕ) (reads : List BodyRead)
      → all not_aborted reads ≡ true
      → read_bounded_text_body decoder (some reads) max ≡ some (text_prefix decoder max reads)
  unfolding read_bounded_text_body
  read_bounded_text_body-prefix max reads live =
      let (r, h, result) = read_chunks-Result max 0 reads (omega arith) live in
      let whole : max - 0 ≡ max = omega arith in
      let count : r.bytes ≡ min max (length (stream reads)) = omega (arith, result.count) in
      let cut : r.truncated ≡ ltb max (length (stream reads)) = ground (arith, result.cut) in
      let text = decode_all-join_chunks r.truncated decoder.empty decoder.start r.body in
      let start = streams.empty_left (decoder.decode decoder.start (take max (stream reads))).0 in
      cc (h, whole, count, cut, result.content, text, start)
