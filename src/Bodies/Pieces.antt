-- ===== src/Bodies/Pieces.antt =====
-- One piece of a multipart body of src/bodyhandler.c, in the middle of a transfer.
use belle_sip.Prelude.{
  ℕ, ◌+◌, ◌-◌, ◌<◌, ◌≤◌, ◌≡◌, ◌∙◌, refl, min, Bool, true, false, ◌==◌, ◌&&◌, ltb, List, [], ◌∷◌,
  ◌++◌, length, drop, arith, String,
}
use belle_sip.Bodies.Memory.{
  Status, stop, continue, word, minus, minus_lem, MemoryBody, Chunk, limit, outcome, send_chunk,
  IsUnderWay,
}
use belle_sip.Bodies.Multipart.{ending, MultipartBody, preamble, proceed, multipart_chunk_send}

-- What is still to come of a part, and of parts and the end behind them.
abbrev pub part_text : MemoryBody → String
part_text p = preamble p ++ drop p.transfered_size p.buffer

abbrev pub remaining : List MemoryBody → String
remaining [] = ending
remaining (p ∷ ps) = part_text p ++ remaining ps

abbrev pub AllUnderWay : List MemoryBody → Type 0
AllUnderWay [] = Unit
AllUnderWay (p ∷ ps) = IsUnderWay p × AllUnderWay ps

-- Parts of which the separator, the headers and a byte fit `b` bytes, with the end behind them.
abbrev pub Fits : ℕ → List MemoryBody → Type 0
Fits b [] = Unit
Fits b (p ∷ ps) = (length (preamble p) + length ending + 1 ≤ b) × Fits b ps

pub limit_lem :
    (expected transfered n rest : ℕ)
    → expected ≡ transfered + rest
    → 0 < rest
    → expected < word
    → limit expected transfered n ≡ min n rest
unfolding limit
limit_lem expected transfered n rest e p h =
    let known : (expected == 0) ≡ false = ground (arith, e, p) in
    let l : minus expected transfered ≡ rest =
      minus_lem expected transfered (omega (arith, e)) h ∙ omega (arith, e) in
    rw (known, l) refl

pub and_false : (t : Bool) → (t && false) ≡ false
and_false true = refl
and_false false = refl

pub chunk_send_lem :
    (k : ℕ) (p : MemoryBody) (ps : List MemoryBody) (m : MultipartBody)
    → length (preamble p) + length ending + 1 ≤ k
    → k < word
    → multipart_chunk_send k (record m { parts = p ∷ ps })
      ≡ proceed
          (preamble p)
          (send_chunk (k - length ending - length (preamble p)) p)
          ps
          (record m { parts = p ∷ ps })
unfolding multipart_chunk_send
chunk_send_lem k p ps m h w =
    let a : minus k (length ending) ≡ k - length ending =
      minus_lem k (length ending) (omega arith) w in
    let b : minus (k - length ending) (length (preamble p))
        ≡ k - length ending - length (preamble p) =
      minus_lem (k - length ending) (length (preamble p)) (omega arith) (omega arith) in
    let c : ltb (k - length ending) (length (preamble p) + 1) ≡ false = ground arith in
    rw (a, b, c, and_false (p.transfered_size == 0)) refl

-- How the base class ends a piece.
abbrev pub ended : MultipartBody → Chunk MultipartBody → Chunk MultipartBody
ended m c = record c {
  body = let b = c.body in record b { transfered_size = m.transfered_size + c.size };
  status = elim c.status [
    | Status.crashed ↦ Status.crashed
    | s ↦ outcome m.expected_size (m.transfered_size + c.size) s
  ];
}

pub outcome_continue :
    (expected transfered : ℕ)
    → transfered < expected
    → outcome expected transfered continue ≡ continue
unfolding outcome
outcome_continue expected transfered h =
    let a : (expected == 0) ≡ false = ground arith in
    let b : (transfered == expected) ≡ false = ground arith in rw (a, b) refl

pub outcome_stop : (expected transfered : ℕ) → outcome expected transfered stop ≡ stop
unfolding outcome
outcome_stop expected transfered = ground arith

-- A multipart body of which `r` is still to come, in pieces of at least `b` bytes.
pub record Going (b : ℕ) (m : MultipartBody) (r : String) : Type 0 where
  pub part : MemoryBody
  pub parts_behind : List MemoryBody
  pub parts_are : m.parts ≡ part ∷ parts_behind
  pub rest_is : r ≡ remaining (part ∷ parts_behind)
  pub size_is : m.expected_size ≡ m.transfered_size + length r
  pub no_overflow : m.expected_size < word
  pub under_way : AllUnderWay (part ∷ parts_behind)
  pub fits : Fits b (part ∷ parts_behind)

-- The body has given all and is at the end of its last part.
pub record IsSpent (m : MultipartBody) : Type 0 where
  pub last : MemoryBody
  pub last_is : m.parts ≡ last ∷ []
  pub last_size : last.expected_size ≡ length last.buffer
  pub last_given : last.transfered_size ≡ last.expected_size
  pub last_positive : 0 < last.expected_size
  pub last_bounded : last.expected_size < word

-- A piece is a part of what is to come.
pub record Continues (b : ℕ) (r : String) (c : Chunk MultipartBody) : Type 0 where
  pub status_is : c.status ≡ continue
  pub rest : String
  pub going : Going b c.body rest
  pub joined : r ≡ c.written ++ rest
  pub some_written : length rest < length r

-- A piece is all that is to come.
pub record Finishes (r : String) (c : Chunk MultipartBody) : Type 0 where
  pub status_is : c.status ≡ stop
  pub all_written : c.written ≡ r
  pub spent : IsSpent c.body
