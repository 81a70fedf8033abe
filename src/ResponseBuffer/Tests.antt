-- ===== src/ResponseBuffer/Tests.antt =====
-- Runs of the response buffer.
use clm.Base.{Bytes, true, [], ◌∷◌, refl, arith}
use clm.ResponseBuffer.{ResponseBuffer, Chunk, buffer_write}
use clm.ResponseBuffer.Bounds.{IsBounded, Outcome, buffer_write-Outcome}

abbrev fresh : ResponseBuffer
fresh = record { data_bytes = []; len = 0; received = 0; limit = 5 }

fresh-IsBounded : IsBounded fresh
fresh-IsBounded = record {
  len_is = refl;
  room_for_nul = omega arith;
  within = omega arith;
  limit_word = omega arith;
}

abbrev three_bytes : Bytes
three_bytes = b'a' ∷ b'b' ∷ b'c' ∷ []

abbrev chunk : Chunk
chunk = record { contents = three_bytes; size = 1; nmemb = 3; retain = true; has_memory = true }

buffer_write-Outcome_example :
    Outcome fresh three_bytes true true (buffer_write fresh three_bytes 1 3 true true)
buffer_write-Outcome_example =
    buffer_write-Outcome fresh three_bytes 1 3 true true fresh-IsBounded refl
