-- ===== src/Stream/Dispatched.antt =====
-- The calls that a stream has assembled go to the tools: stream_build_tool_calls and clm_tools_dispatch.
use clm.Agent.{done}
use clm.Base.{◌≤◌, ◌≡◌, refl, Bytes, true, Option, none, some, List, [], ◌∷◌, length}
use clm.Stream.{StreamCall, stream_build_tool_calls, named_call}
use clm.Tools.{Toolbox, Ext}
use clm.Tools.Dispatch.{Call, dispatch}
use clm.Tools.Life.{Reach}
use clm.Tools.Life.Batch.{IsOnce, Reach-IsOnce}
use clm.Tools.Life.Reached.{Idle}
use clm.Tools.Sound.Start.{can_copy}

-- No call of a stream makes the tools copy a NULL.
can_copy-stream_build_tool_calls :
    (l : List StreamCall) → can_copy (stream_build_tool_calls l) ≡ true
unfolding stream_build_tool_calls
can_copy-stream_build_tool_calls [] = refl
can_copy-stream_build_tool_calls (c ∷ l) =
    copied_too c.name (stream_build_tool_calls l) (can_copy-stream_build_tool_calls l)
  where
    copied_too :
        (name : Option Bytes) (rest : List Call)
        → can_copy rest ≡ true
        → can_copy (named_call name c rest) ≡ true
    copied_too none rest h = h
    copied_too (some name) rest h = h

-- Whatever calls a stream has assembled, if one of them has a name and no call runs, their batch is
-- started, and after any steps it is freed and the turn goes on just once, when the last call is over;
-- where the agent is gone the batch is only freed.
dispatch-stream_build_tool_calls :
    (e : Ext) (s : Toolbox) (l : List StreamCall)
    → 1 ≤ length (stream_build_tool_calls l)
    → Idle s
    → (t : Toolbox) × (dispatch e s (stream_build_tool_calls l) ≡ some (t, done))
      × ((u : Toolbox) → Reach t u → IsOnce u)
dispatch-stream_build_tool_calls e s l p z =
    Reach-IsOnce e s (stream_build_tool_calls l) (can_copy-stream_build_tool_calls l) p z
