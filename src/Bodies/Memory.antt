-- ===== src/Bodies/Memory.antt =====
-- The memory body handler of src/bodyhandler.c on its base class. The progress callbacks are left out:
-- they get the two sizes. size_t has 64 bits.
use belle_sip.Prelude.{
  ℕ, zero, suc, ◌+◌, ◌-◌, ◌%◌, ◌<◌, ◌≤◌, ◌≡◌, ◌∙◌, refl, ap, min, true, false, ◌==◌, Option, none,
  [], ◌∷◌, ◌++◌, length, take, drop, length-drop, if◌then◌else◌, arith, String,
}

-- What a piece ends with; `crashed` stands for the use of a null pointer.
pub data Status : Type 0 where
  stop continue buffer_overflow crashed : Status

-- 2 ^ 64
abbrev pub word : ℕ
word = 18446744073709551616

-- The subtraction of size_t.
unfoldable pub minus : ℕ → ℕ → ℕ
minus a b = (a + word - b) % word

pub minus_lem : (a b : ℕ) → b ≤ a → a < word → minus a b ≡ a - b
unfolding minus
minus_lem a b h k = omega arith

-- `header` is headerStringBuffer.
pub record MemoryBody : Type 0 where
  pub expected_size : ℕ
  pub transfered_size : ℕ
  pub buffer : String
  pub header : Option String

-- What is written into the caller's buffer, the size that it is told, and the status.
pub record Chunk (B : Type 0) : Type 0 where
  pub body : B
  pub written : String
  pub size : ℕ
  pub status : Status

unfoldable pub new_from_buffer : String → MemoryBody
new_from_buffer s = record {
  expected_size = length s;
  transfered_size = 0;
  buffer = s;
  header = none;
}

unfoldable pub begin_transfer : MemoryBody → MemoryBody
begin_transfer b = record b { transfered_size = 0 }

unfoldable pub end_transfer : MemoryBody → MemoryBody
end_transfer b = if b.expected_size == 0 then record b { expected_size = b.transfered_size } else b

-- At most what is expected is asked for, if that is known.
unfoldable pub limit : ℕ → ℕ → ℕ → ℕ
unfolding minus
limit expected transfered n = if expected == 0 then n else min n (minus expected transfered)

-- The status after `transfered` bytes in all.
unfoldable pub outcome : ℕ → ℕ → Status → Status
outcome expected transfered s =
    if expected == 0 then s else if transfered == expected then stop else s

-- belle_sip_memory_body_handler_send_chunk
unfoldable pub memory_chunk_send : ℕ → MemoryBody → Chunk MemoryBody
unfolding minus
memory_chunk_send n b =
    let left = minus b.expected_size b.transfered_size in
    let to_send = min n left in
    record {
      body = b;
      written = take to_send (drop b.transfered_size b.buffer);
      size = to_send;
      status = if left == to_send then stop else continue;
    }

-- belle_sip_body_handler_send_chunk on a memory body handler
unfoldable pub send_chunk : ℕ → MemoryBody → Chunk MemoryBody
unfolding limit outcome memory_chunk_send
send_chunk n b =
    let c = memory_chunk_send (limit b.expected_size b.transfered_size n) b in
    let transfered = b.transfered_size + c.size in
    record c {
      body = record b { transfered_size = transfered };
      status = outcome b.expected_size transfered c.status;
    }

-- belle_sip_memory_body_handler_recv_chunk
unfoldable pub memory_chunk_recv : String → MemoryBody → MemoryBody
memory_chunk_recv s b = record b { buffer = take b.transfered_size b.buffer ++ s }

-- belle_sip_body_handler_recv_chunk on a memory body handler
unfoldable pub recv_chunk : String → MemoryBody → MemoryBody
unfolding memory_chunk_recv
recv_chunk s b =
    let c = memory_chunk_recv s b in record c { transfered_size = b.transfered_size + length s }

-- A handler in the middle of a transfer.
pub record IsUnderWay (b : MemoryBody) : Type 0 where
  pub size_is : b.expected_size ≡ length b.buffer
  pub unfinished : b.transfered_size < length b.buffer
  pub no_overflow : length b.buffer < word

pub take_all : (n : ℕ) (s : String) → length s ≤ n → take n s ≡ s
take_all zero [] h = refl
take_all zero (a ∷ s) h = absurd (omega arith)
take_all (suc n) [] h = refl
take_all (suc n) (a ∷ s) h = ap (◌∷◌ a) (take_all n s (omega arith))

pub send_chunk_some :
    (n : ℕ) (b : MemoryBody)
    → IsUnderWay b
    → n < length b.buffer - b.transfered_size
    → send_chunk n b ≡ record {
      body = record b { transfered_size = b.transfered_size + n };
      written = take n (drop b.transfered_size b.buffer);
      size = n;
      status = continue;
    }
unfolding send_chunk limit outcome memory_chunk_send
send_chunk_some n b u h =
    let l : minus b.expected_size b.transfered_size ≡ length b.buffer - b.transfered_size =
      ap (λ e. minus e b.transfered_size) u.size_is
      ∙ minus_lem (length b.buffer) b.transfered_size (omega (arith, u.unfinished)) u.no_overflow in
    let known : (b.expected_size == 0) ≡ false = ground (arith, u.size_is, u.unfinished) in
    let m : min n (length b.buffer - b.transfered_size) ≡ n = omega arith in
    let more : (length b.buffer - b.transfered_size == n) ≡ false = ground arith in
    let not_all : (b.transfered_size + n == b.expected_size) ≡ false = ground (arith, u.size_is) in
    rw (known, l, m, m, more, not_all) refl

pub send_chunk_all :
    (n : ℕ) (b : MemoryBody)
    → IsUnderWay b
    → length b.buffer - b.transfered_size ≤ n
    → send_chunk n b ≡ record {
      body = record b { transfered_size = length b.buffer };
      written = drop b.transfered_size b.buffer;
      size = length b.buffer - b.transfered_size;
      status = stop;
    }
unfolding send_chunk limit outcome memory_chunk_send
send_chunk_all n b u h =
    let left = length b.buffer - b.transfered_size in
    let l : minus b.expected_size b.transfered_size ≡ left =
      ap (λ e. minus e b.transfered_size) u.size_is
      ∙ minus_lem (length b.buffer) b.transfered_size (omega (arith, u.unfinished)) u.no_overflow in
    let known : (b.expected_size == 0) ≡ false = ground (arith, u.size_is, u.unfinished) in
    let m : min n left ≡ left = omega arith in
    let m2 : min left left ≡ left = omega arith in
    let same : (left == left) ≡ true = ground arith in
    let sum : b.transfered_size + left ≡ length b.buffer = omega (arith, u.unfinished) in
    let all : (length b.buffer == b.expected_size) ≡ true = ground (arith, u.size_is) in
    let whole =
      take_all left (drop b.transfered_size b.buffer)
        (omega (arith, length-drop b.transfered_size b.buffer)) in
    rw (known, l, m, m2, same, sum, all, whole) refl
