-- ===== src/History/Supersede.antt =====
-- `clm_history_supersede_tool` of libclm/history.c: older results of a tool give way to a stub.
pub mod Same
pub mod Older
use mathlib.Core.List.{reverse}
use clm.Base.{
  before_nul, ℕ, zero, suc, ◌+◌, Bytes, Bool, true, false, not, ◌&&◌, Option, none, some, List, [],
  ◌∷◌, length, names, if◌then◌else◌, ◌==◌,
}
use mathlib.Core.Option.{map}
use clm.History.{Message, History, set_content}
use clm.History.Compact.{Result, ok, err, einval, find_back}
use clm.History.Wire.{is_head, is_tool}

-- The number of messages before the assistant message that opened the current batch; without one the
-- loop goes over all messages.
abbrev pub or_all : History → Option ℕ → ℕ
or_all h none = length h
or_all h (some k) = k

unfoldable pub before_batch : History → ℕ
before_batch h = or_all h (find_back is_head 1 0 (reverse h))

-- Stubbed on an earlier pass. The content may hold a NUL, where `strcmp` stops.
abbrev pub is_stubbed : Message → Bytes → Bool
is_stubbed m stub = not m.content_compressed && names (map before_nul m.content) stub

-- The stub is stored with no compressor, and the images go.
pub stubbed : Message → Bytes → Message
stubbed m stub = record (set_content m (some stub) none) { attachments = [] }

-- The body of the loop: how many results it stubbed, and the message.
unfoldable pub supersede_one : Message → Bytes → Bytes → ℕ × Message
supersede_one m tool_name stub =
    if is_tool m && names m.tool_name tool_name
    then (if is_stubbed m stub then (0, m) else (1, stubbed m stub))
    else (0, m)

unfoldable pub supersede_before : ℕ → History → Bytes → Bytes → ℕ × History
supersede_before zero h tool_name stub = (0, h)
supersede_before (suc k) [] tool_name stub = (0, [])
supersede_before (suc k) (m ∷ h) tool_name stub =
    let (a, m') = supersede_one m tool_name stub in
    let (n, h') = supersede_before k h tool_name stub in (a + n, m' ∷ h')

unfoldable pub supersede_tool : History → Option Bytes → Option Bytes → Result (ℕ × History)
supersede_tool h none stub = err einval
supersede_tool h (some tool_name) none = err einval
supersede_tool h (some tool_name) (some stub) =
    ok (supersede_before (before_batch h) h tool_name stub)
