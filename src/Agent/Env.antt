-- ===== src/Agent/Env.antt =====
-- What agent.c's calls are told by what is outside of it: the host, the C library, the provider, the
-- table of images and the tools.
use clm.Agent.Delay.{Scan}
use clm.Agent.{Code, Agent}
use clm.Base.{ℕ, Bytes, Bool}
use clm.History.{History}

-- What `clm_files_apply` made of the images of a request.
pub data Applied : Type 0 where
  apply_failed : Applied
  applied : Applied
  missing : Bytes → Applied

-- How far `compact_build` came.
pub data Built : Type 0 where
  build_failed print_failed built : Built

-- What `clm_tools_dispatch` did: the error, or the messages that it put into the history.
pub data Dispatched : Type 0 where
  refused : Code → Dispatched
  dispatched : History → Dispatched

-- What the host, the C library, the provider and the tools answer while one call runs; `post`
-- is of turns and compactions, and a call whose request is refused may go on to post another, so that
-- the answer depends on the agent that posts. Each other is asked once at most, but for the clock.
pub record Env : Type 0 where
  pub post : Agent → Bool
  pub post_error : Agent → Code
  pub has_timers : Bool
  pub timer_set : Bool
  pub messages_built : Bool
  pub files_apply : Applied
  pub files_url : Bool
  pub upload_prepared : Bool
  pub upload_post : Bool
  pub schema_built : Bool
  pub request_built : Bool
  pub full_len : ℕ
  pub body_len : ℕ
  pub compact_built : Built
  pub dispatch : Dispatched
  pub now_usec : ℕ
  pub time : ℕ
  pub rfc2822 : Bytes
  pub http_detail : Bytes
  pub denial_text : Bytes
  pub scan : Scan
