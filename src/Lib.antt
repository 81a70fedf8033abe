-- ===== src/Lib.antt =====
-- clm: a library and a terminal program that runs language-model agents with tools.
--
-- The core of the program is libclm. An agent keeps a conversation (libclm/history.c), sends it to a
-- provider, runs the tools that the model calls and puts their results into the conversation. When
-- the conversation grows too large the agent folds its old part into a summary; when a session ended
-- in the middle of a batch of tools, it repairs the calls that have no result; when a tool's new result
-- makes its old ones worthless, they give way to a stub. What goes into a message is made valid
-- UTF-8 first, tool output is cleaned of terminal escapes (libclm/text_clean.c), images are
-- recognised and coded in base64 (libclm/image.c), and calls are paced by a token bucket
-- (libclm/ratelimit.c).
--
-- Files:
--   Base        shared names; machine words, byte strings, comparison of strings, list lemmas
--   Ratelimit   libclm/ratelimit.c: `refill`, `new`, `allow`, `delay`, `consume`, `tokens`, `set_rate`,
--               `set_burst` are the functions named clm_ratelimit_*
--   TextClean   libclm/text_clean.c: `clean_text` is clm_clean_text
--   Utf8        utf8_seq and utf8_repair of libclm/history.c, put_utf8 of libemoji/emoji.c
--   History     libclm/history.c with include/clm/history.h: the messages, `set_content`
--               (message_set_content_len), and the adders; `compact` (clm_history_compact) in
--               History/Compact, `compact_within` (clm_history_compact_within) in History/Within,
--               `repair_dangling` (clm_history_repair_dangling_tool_calls) in History/Dangling,
--               `supersede_tool` (clm_history_supersede_tool) in History/Supersede. History/Wire
--               says what shape of a conversation providers accept
--               The saved form of messages, clm_message_to_json_full and clm_message_from_json, is in
--               History/Json, over a record `Cjson` of what the JSON library does: Json/Stored follows the
--               content, Json/Parts and Json/Loading what is found again
--   Image       libclm/image.c: `base64_encode`, `base64_decode` in Image/Base64, `image_sniff`
--               (clm_image_sniff) in Image/Sniff
--   ResponseBuffer  libclmuv/http_response_buffer.c: `buffer_write` is http_response_buffer_write
--   Agent       the turns of libclm/agent.c: Agent/Turn (clm_agent_submit, clm_agent_start_turn,
--               llm_dispatch, rl_retry, agent_turn_done), Agent/Compaction (clm_agent_compact and
--               compact_success_cb), Agent/Reply (clm_http_success_cb_wrapper, agent_finish),
--               Agent/Calls (clm_agent_notify, clm_agent_cancel, clm_agent_tools_done, uploads),
--               Agent/Delay (clm_rl_retry_delay_ms); Agent/Env is what they are told. Agent/Step
--               makes a transition system of the calls and of the callbacks that are owed;
--               Agent/Waiting follows each function through it
--   Output      the cut of tool output of libclm/tools.c: `cut_output`, `fit_head`, `fit_tail`, and
--               `find_binary_offset` in Output/Binary
--   Tools       the batches of tool calls of libclm/tools.c: Tools/Registry (clm_tool_add,
--               clm_tool_remove, find_tool; Tools/Registry/Map has the map that it is, Tools/Registry/Kept its list),
--               Tools/Results (inv_compute_limits, and what a report comes to), Tools/Finalize (`inv_finalize`, `batch_finalize`, `report` for
--               clm_tool_complete_buf and its like, `on_timeout`), Tools/Gate (`run_invoke`,
--               `permission_gate`, `gate_run`, clm_tool_gate_respond, clm_tool_permission_respond),
--               Tools/Dispatch (clm_tools_dispatch), Tools/Teardown (clm_tools_cancel,
--               clm_tools_detach). Tools/Life makes a transition system of them. Tools/Sound says
--               what holds of a batch and follows each function; Tools/Detach does it for a batch
--               whose agent is gone. The end of a batch is `batch_done` of Agent/Calls
--   Stream      the parser of a streamed reply of libclm/agent.c: Stream/Feed (clm_http_data_cb_wrapper,
--               stream_handle_line), and stream_merge_tool_calls and stream_build_tool_calls, whose
--               calls go to Tools
--   Files       the table of uploads of libclm/files.c: `files_add`, `files_find`, `files_clear`
-- The Tests modules run the theorems on small inputs.
--
-- State and errors: an operation that writes through a pointer takes the state and returns it. A
-- pointer that may be NULL is an `Option`. A C string is the list of its bytes before the NUL and
-- holds no NUL; content with a length may. A TAILQ is a list. An error code is a constructor of a
-- result type. `uint64_t` and `size_t` arithmetic wraps modulo 2 ^ 64 in Ratelimit, ResponseBuffer and
-- the hash of Files; elsewhere sizes are of objects in memory and stay below it.
--
-- The agent: what the host, the provider, the C library and the tools answer in a call is the record
-- `Env`, and what a response holds is `Reply`. A call whose request is refused may post another one:
-- the answer to a post is a function of the agent that posts. The host is one with an event loop: it calls back
-- after the call that asked it has returned, and for each request once. Callbacks to the embedder
-- are recorded, and do not call the agent.
--
-- The tools: what a tool, a hook, the user and the host answer before the call to them returns is a
-- function of the invocation in the record `Ext`; what they answer later is a step of its own. An
-- invocation is its place in the batch, a tool node its address in `store`. The batch counts its calls
-- of `batch_finalize` and of `batch_really_free`, so that a second free would be seen.
--
-- Loops: a walk over a list is structural recursion, a walk back a recursion on the reversed list.
-- The loops of `clean_text`, `utf8_repair`, `repair_dangling` and `sniff_jpeg` take fuel. Each turn of
-- them makes what is left shorter by one at least, so the length of the list is enough; in
-- Image/Sniff running out of fuel is a result of its own. In Output a walk over words takes one fuel for
-- each word and the spaces before it, so the length of the output is enough.
--
-- Not modelled: allocation failure except in ResponseBuffer; the clock (an argument); the compressor
-- of the embedder (a field of `Compressor`); the JSON library (a parameter) and the requests made
-- with it; the construction and the settings of an agent and its probes; the providers, whose
-- callback for the events of a stream is a parameter; the timings in those events; the schema of the
-- tools and the tools themselves; the event loop, processes, the Lua bindings and the terminal program,
-- which are I/O or stand on libraries outside the repository.

pub mod Base
pub mod Ratelimit
pub mod TextClean
pub mod Utf8
pub mod History
pub mod Image
pub mod ResponseBuffer
pub mod Files
pub mod Agent
pub mod Output
pub mod Tools
pub mod Stream
