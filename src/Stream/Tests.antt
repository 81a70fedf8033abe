-- ===== src/Stream/Tests.antt =====
-- Runs of the parser of a stream.
use clm.Agent.{AsyncTurn}
use clm.Agent.Tests.{fresh}
use clm.Base.{◌≡◌, refl, Bytes, Bool, true, false, none, some, List, [], ◌∷◌, codes}
use clm.Stream.{
  StreamCall, index_of, Delta, Payload, no_json, Stream, stream_get_call, merge_at,
  merge_tool_calls,
}
use clm.Stream.Assembly.{call_at, add, pieces, merge_tool_calls-pieces}
use clm.Stream.Feed.{data_chunks, then_next}
use clm.Stream.Lines.{each_line, data_chunks-lines}
use clm.Tools.Dispatch.{absent, string}

abbrev read : Bool → Bytes → Bool × Payload
read p payload = (p, no_json)

abbrev turn : AsyncTurn
turn = record { body_len = 0; streaming = true; history_msgs = 0; ctx_bytes = 0; rl_retries = 0 }

abbrev empty : Stream Bool
empty = record {
  agent = fresh;
  line = [];
  content = [];
  calls = [];
  finish_reason = none;
  usage = none;
  rl_advice = none;
  provider_state = false;
}

-- Two lines and the start of a third, in chunks that are cut inside of a line.
abbrev chunks : List Bytes
chunks = codes "da" ∷ codes "ta: x\n: pi" ∷ [] ∷ codes "ng\ndata" ∷ []

abbrev whole_lines : List Bytes
whole_lines = codes "data: x" ∷ codes ": ping" ∷ []

data_chunks-lines_example :
    data_chunks read turn chunks empty
    ≡ then_next
        (each_line read turn whole_lines empty)
        (λ g. some (record g { line = codes "data" }))
data_chunks-lines_example =
    data_chunks-lines read turn chunks whole_lines (codes "data") empty
      (
        (refl, (refl, (refl, (refl, (refl, (refl, (refl, tt))))))),
        ((refl, (refl, (refl, (refl, (refl, (refl, tt)))))), tt),
      )
      (refl, (refl, (refl, (refl, tt)))) refl refl

abbrev first_part : Delta
first_part = record {
  index = index_of 1;
  id = string (codes "a");
  name = string (codes "shell");
  arguments = some (codes "{");
}

abbrev second_part : Delta
second_part = record {
  index = index_of 1;
  id = absent;
  name = absent;
  arguments = some (codes "}");
}

abbrev call : StreamCall
call = record { id = some (codes "a"); name = some (codes "shell"); args = some (codes "{}") }

abbrev no_name : StreamCall
no_name = record { id = none; name = none; args = none }

merged : merge_tool_calls 0 (first_part ∷ second_part ∷ []) [] ≡ some (no_name ∷ call ∷ [])
unfolding merge_tool_calls merge_at stream_get_call
merged = refl

merge_tool_calls-pieces_example :
    call_at (no_name ∷ call ∷ []) 1
    ≡ add (call_at [] 1) (pieces 1 0 (first_part ∷ second_part ∷ []))
merge_tool_calls-pieces_example =
    merge_tool_calls-pieces (first_part ∷ second_part ∷ []) 0 [] (no_name ∷ call ∷ []) 1 merged
