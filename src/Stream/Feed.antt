-- ===== src/Stream/Feed.antt =====
-- The lines of a streamed reply: stream_handle_line and clm_http_data_cb_wrapper.
use clm.Agent.{AsyncTurn}
use clm.Base.{
  ℕ, Bytes, Bool, not, Option, none, some, List, [], ◌∷◌, ◌++◌, codes, bytes_eq, before_nul, take,
  drop, if◌then◌else◌, ◌==◌,
}
use clm.Stream.{Stream, Payload, handle_payload}

-- A carriage return at the end of the line.
abbrev strip_cr : Bytes → Bytes
strip_cr [] = []
strip_cr (b ∷ []) = if b == 13 then [] else b ∷ []
strip_cr (b ∷ c ∷ s) = b ∷ strip_cr (c ∷ s)

abbrev skip_spaces : Bytes → Bytes
skip_spaces [] = []
skip_spaces (b ∷ s) = let rest = skip_spaces s in if b == 32 then rest else b ∷ s

-- The C string behind "data:".
abbrev payload_of : Bytes → Bytes
payload_of line = skip_spaces (before_nul (drop 5 line))

abbrev is_data : Bytes → Bool
is_data line = bytes_eq (take 5 line) (codes "data:")

module _ {S : Type 0} where
  abbrev pub emptied : Option (Stream S) → Option (Stream S)
  emptied none = none
  emptied (some f) = some (record f { line = [] })

  abbrev pub then_next : Option (Stream S) → (Stream S → Option (Stream S)) → Option (Stream S)
  then_next none next = none
  then_next (some f) next = next f

module _ {S : Type 0} (read : S → Bytes → S × Payload) (turn : AsyncTurn) where
  abbrev handle_data : Stream S → Bytes → Option (Stream S)
  handle_data f line =
      if not (is_data line)
      then some f
      else if bytes_eq (payload_of line) (codes "[DONE]")
      then some f
      else handle_payload turn f (read f.provider_state (payload_of line))

  -- `stream_handle_line`; a cancelled turn takes nothing more.
  unfoldable pub handle_line : Stream S → Option (Stream S)
  handle_line f = if f.agent.cancelling then some f else handle_data f (strip_cr f.line)

  -- The body of the loop of `clm_http_data_cb_wrapper`.
  unfoldable pub data_byte : Stream S → ℕ → Option (Stream S)
  unfolding handle_line
  data_byte f b =
      if b == 10 then emptied (handle_line f) else some (record f { line = f.line ++ b ∷ [] })

  -- `clm_http_data_cb_wrapper`, for one chunk of the response.
  unfoldable pub data_cb : Bytes → Stream S → Option (Stream S)
  unfolding data_byte
  data_cb [] f = some f
  data_cb (b ∷ s) f = then_next (data_byte f b) (data_cb s)

  -- The chunks as they arrive.
  unfoldable pub data_chunks : List Bytes → Stream S → Option (Stream S)
  unfolding data_cb
  data_chunks [] f = some f
  data_chunks (c ∷ l) f = then_next (data_cb c f) (data_chunks l)
