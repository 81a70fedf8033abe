-- ===== src/ResponseBuffer.antt =====
-- The bounded buffer of an HTTP response: libclmuv/http_response_buffer.c and its header.
-- `realloc` may fail, which is an argument. `data` is the list of the first `len` bytes; the NUL behind
-- them is not in it. `contents` holds `size * nmemb` bytes.
pub mod Bounds
mod Tests
use clm.Base.{
  ℕ, ◌+◌, ◌-◌, ◌*◌, ◌/◌, Bytes, Bool, true, false, not, ◌&&◌, List, [], ◌∷◌, ◌++◌, if◌then◌else◌,
  ltb, ◌==◌, u64, u64_max,
}

pub data WriteResult : Type 0 where
  accepted overflow too_large no_memory : WriteResult

pub record ResponseBuffer : Type 0 where
  pub data_bytes : Bytes
  pub len : ℕ
  pub received : ℕ
  pub limit : ℕ

-- What a call leaves: its result, the buffer and `*written`.
pub record Written : Type 0 where
  pub result : WriteResult
  pub buf : ResponseBuffer
  pub written : ℕ

abbrev pub refused_with : WriteResult → ResponseBuffer → Written
refused_with result buf = record { result = result; buf = buf; written = 0 }

-- `realloc` and `memcpy`, behind the checks.
pub grow : ResponseBuffer → Bytes → ℕ → Bool → Written
grow buf contents realsize has_memory =
    if has_memory
    then record {
      result = accepted;
      buf = record buf {
        data_bytes = buf.data_bytes ++ contents;
        len = u64 (buf.len + realsize);
        received = u64 (buf.received + realsize);
      };
      written = realsize;
    }
    else refused_with no_memory buf

pub retain_bytes : ResponseBuffer → Bytes → ℕ → Bool → Written
retain_bytes buf contents realsize has_memory =
    if ltb (u64_max - buf.len) realsize
    then refused_with overflow buf
    else if u64 (buf.len + realsize) == u64_max
    then refused_with overflow buf
    else grow buf contents realsize has_memory

pub write_real : ResponseBuffer → Bytes → ℕ → Bool → Bool → Written
write_real buf contents realsize retain has_memory =
    if ltb (u64_max - buf.received) realsize
    then refused_with overflow buf
    else if ltb buf.limit (u64 (buf.received + realsize))
    then refused_with too_large buf
    else if not retain
    then record {
      result = accepted;
      buf = record buf { received = u64 (buf.received + realsize) };
      written = realsize;
    }
    else retain_bytes buf contents realsize has_memory

-- `http_response_buffer_write`.
pub buffer_write : ResponseBuffer → Bytes → ℕ → ℕ → Bool → Bool → Written
buffer_write buf contents size nmemb retain has_memory =
    if not (size == 0) && ltb (u64_max / size) nmemb
    then refused_with overflow buf
    else write_real buf contents (u64 (size * nmemb)) retain has_memory

-- One call of the transfer library: the bytes, the two sizes, whether they are kept, and whether
-- there is memory.
pub record Chunk : Type 0 where
  pub contents : Bytes
  pub size : ℕ
  pub nmemb : ℕ
  pub retain : Bool
  pub has_memory : Bool

pub write_all : ResponseBuffer → List Chunk → ResponseBuffer
write_all buf [] = buf
write_all buf (c ∷ cs) =
    write_all (buffer_write buf c.contents c.size c.nmemb c.retain c.has_memory).buf cs
