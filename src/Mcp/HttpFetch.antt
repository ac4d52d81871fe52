-- ===== src/Mcp/HttpFetch.antt =====
-- src/mcp/httpFetch.ts: the readers of a response's body, which stop at a number of bytes.
pub mod Bounded
use saivage.Base.{
  ℕ, zero, suc, ◌+◌, ◌-◌, Bool, true, false, Option, none, some, List, [], ◌∷◌, ◌++◌, length, ltb,
  if◌then◌else◌,
}

-- what `reader.read` brings: a chunk, none of them, or that the signal has been aborted meanwhile; the stream is
-- done at the end of the list
pub data BodyRead : Type 0 where
  value : List ℕ → BodyRead
  no_value aborted : BodyRead

-- `BoundedReadResult`
pub record BoundedRead (Body : Type 0) : Type 0 where
  pub body : Body
  pub bytes : ℕ
  pub truncated : Bool

-- `subarray(0, n)`
abbrev pub take {ℓ} : {A : Type ℓ} → ℕ → List A → List A
take zero xs = []
take (suc n) [] = []
take (suc n) (x ∷ xs) = x ∷ take n xs

abbrev push : List ℕ → Option (BoundedRead (List (List ℕ))) → Option (BoundedRead (List (List ℕ)))
push chunk none = none
push chunk (some r) = some (record r { body = chunk ∷ r.body })

-- the chunk that does not fit whole
abbrev last_chunk : ℕ → List ℕ → ℕ → BoundedRead (List (List ℕ))
last_chunk max chunk total =
    if ltb 0 (max - total)
    then record {
      body = take (max - total) chunk ∷ [];
      bytes = total + (max - total);
      truncated = true;
    }
    else record { body = []; bytes = total; truncated = true }

-- the loop of both readers: the chunks that it keeps, from a total on; `none` where it throws
unfoldable pub read_chunks : ℕ → ℕ → List BodyRead → Option (BoundedRead (List (List ℕ)))
read_chunks max total [] = some (record { body = []; bytes = total; truncated = false })
read_chunks max total (aborted ∷ reads) = none
read_chunks max total (no_value ∷ reads) = read_chunks max total reads
read_chunks max total (value chunk ∷ reads) =
    let rest = read_chunks max (total + length chunk) reads in
    if ltb max (total + length chunk) then some (last_chunk max chunk total) else push chunk rest

-- `Buffer.concat`
abbrev pub join_chunks : List (List ℕ) → List ℕ
join_chunks [] = []
join_chunks (c ∷ cs) = c ++ join_chunks cs

abbrev joined : Option (BoundedRead (List (List ℕ))) → Option (BoundedRead (List ℕ))
joined none = none
joined (some r) =
    some (record { body = join_chunks r.body; bytes = r.bytes; truncated = r.truncated })

-- `readBoundedBinaryBody`; `none` for a response without a body
unfoldable pub read_bounded_binary_body : Option (List BodyRead) → ℕ → Option (BoundedRead (List ℕ))
unfolding read_chunks
read_bounded_binary_body none max = some (record { body = []; bytes = 0; truncated = false })
read_bounded_binary_body (some reads) max = joined (read_chunks max 0 reads)

-- a `TextDecoder`: its state, `decode` with `stream: true`, and the last `decode`
pub record Decoder (Text State : Type 0) : Type 0 where
  pub start : State
  pub empty : Text
  pub append : Text → Text → Text
  pub decode : State → List ℕ → Text × State
  pub flush : State → Text

module _ {Text State : Type 0} (decoder : Decoder Text State) where
  abbrev decode_all : Bool → Text → State → List (List ℕ) → Text
  decode_all true out state [] = out
  decode_all false out state [] = decoder.append out (decoder.flush state)
  decode_all cut out state (c ∷ cs) =
      let (text, next) = decoder.decode state c in decode_all cut (decoder.append out text) next cs

  abbrev decoded : Option (BoundedRead (List (List ℕ))) → Option (BoundedRead Text)
  decoded none = none
  decoded (some r) = some (record {
    body = decode_all r.truncated decoder.empty decoder.start r.body;
    bytes = r.bytes;
    truncated = r.truncated;
  })

  -- `readBoundedTextBody`
  unfoldable pub read_bounded_text_body : Option (List BodyRead) → ℕ → Option (BoundedRead Text)
  unfolding read_chunks
  read_bounded_text_body none max =
      some (record { body = decoder.empty; bytes = 0; truncated = false })
  read_bounded_text_body (some reads) max = decoded (read_chunks max 0 reads)
