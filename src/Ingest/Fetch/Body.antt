-- ===== src/Ingest/Fetch/Body.antt =====
-- The cap and the deadline of a body, in app/ingest/fetch.py.
use sre_tab.Common.{
  leb, if◌then◌else◌, length, length-append, text_eq, nat_eq, ℕ, ◌+◌, ◌≤◌, ◌≡◌, ◌↔◌, false, Option,
  none, some, List, [], ◌∷◌, ◌++◌, arith,
}
use sre_tab.Ingest.Outcomes.{returned}
use sre_tab.Ingest.Fetch.{
  Chunk, chunk, stalled, broken, Response, declares_more, is_coded, read_chunks, read_capped,
}

-- The bytes that the transport delivers in time.
unfoldable pub delivered : ℕ → List Chunk → Option (List ℕ)
delivered deadline [] = some []
delivered deadline (chunk now bytes ∷ chunks) =
    if leb deadline now
    then none
    else elim (delivered deadline chunks) [ none ↦ none | some rest ↦ some (bytes ++ rest) ]
delivered deadline (stalled ∷ chunks) = none
delivered deadline (broken ∷ chunks) = none

read_chunks-returned :
    (max_bytes deadline total : ℕ) (chunks : List Chunk) (content : List ℕ)
    → total ≤ max_bytes
    → read_chunks max_bytes deadline total chunks ≡ returned content
    → (delivered deadline chunks ≡ some content) × (total + length content ≤ max_bytes)
unfolding read_chunks delivered
read_chunks-returned max_bytes deadline total [] content h e = ground arith
read_chunks-returned max_bytes deadline total (stalled ∷ chunks) content h e = absurd (ground arith)
read_chunks-returned max_bytes deadline total (broken ∷ chunks) content h e = absurd (ground arith)
read_chunks-returned max_bytes deadline total (chunk now bytes ∷ chunks) content h e = grind (
  arith,
  length-append {0} {A = ℕ} bytes,
  read_chunks-returned max_bytes deadline (total + length bytes) chunks,
)

read_chunks_whole :
    (max_bytes deadline total : ℕ) (chunks : List Chunk) (content : List ℕ)
    → delivered deadline chunks ≡ some content
    → total + length content ≤ max_bytes
    → read_chunks max_bytes deadline total chunks ≡ returned content
unfolding read_chunks delivered
read_chunks_whole max_bytes deadline total [] content e h = ground arith
read_chunks_whole max_bytes deadline total (stalled ∷ chunks) content e h = absurd (ground arith)
read_chunks_whole max_bytes deadline total (broken ∷ chunks) content e h = absurd (ground arith)
read_chunks_whole max_bytes deadline total (chunk now bytes ∷ chunks) content e h = grind (
  arith,
  length-append {0} {A = ℕ} bytes,
  read_chunks_whole max_bytes deadline (total + length bytes) chunks,
)

-- A body that is read: it has no coding, declares no more than the cap, is delivered before the
-- deadline, and is no longer than the cap.
pub record IsWhole (max_bytes deadline : ℕ) (response : Response) (content : List ℕ) : Type 0 where
  pub identity : is_coded response.content_encoding ≡ false
  pub modest : declares_more max_bytes response.content_length ≡ false
  pub in_time : delivered deadline response.body ≡ some content
  pub within : length content ≤ max_bytes

read_capped-IsWhole :
    (max_bytes deadline : ℕ) (response : Response) (content : List ℕ)
    → read_capped max_bytes deadline response ≡ returned content
    → IsWhole max_bytes deadline response content
unfolding read_capped
read_capped-IsWhole max_bytes deadline response content e =
    let coded : is_coded response.content_encoding ≡ false = ground (arith, e) in
    let declared : declares_more max_bytes response.content_length ≡ false =
      ground (arith, e, coded) in
    let (whole, short) =
      read_chunks-returned max_bytes deadline 0 response.body content (omega arith)
        (ground (arith, e, coded, declared)) in
    record { identity = coded; modest = declared; in_time = whole; within = omega (arith, short) }

-- The fetcher reads a body exactly when its transfer coding is the identity, its header declares no
-- more than the cap, every byte of it arrives before the deadline, and its length is at most the
-- cap; and what it returns then are the bytes that were delivered.
pub read_capped_iff :
    (max_bytes deadline : ℕ) (response : Response) (content : List ℕ)
    → (read_capped max_bytes deadline response ≡ returned content)
      ↔ IsWhole max_bytes deadline response content
unfolding read_capped
read_capped_iff max_bytes deadline response content = (
  read_capped-IsWhole max_bytes deadline response content,
  λ whole.
      rw (whole.identity, whole.modest)
        (read_chunks_whole max_bytes deadline 0 response.body content whole.in_time
          (omega (arith, whole.within))),
)
