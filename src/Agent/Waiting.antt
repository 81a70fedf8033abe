-- ===== src/Agent/Waiting.antt =====
-- What an agent waits for, and how many turns have begun and landed: agent.c's turns.
pub mod Landing
pub mod Compacting
pub mod Replies
pub mod Rounds
use clm.Base.{
  ℕ, suc, ◌+◌, ◌≤◌, ◌≡◌, ◌∙◌, refl, inl, inr, Bytes, Bool, true, false, not, ◌&&◌, ◌||◌, Option,
  none, some, List, [], ◌∷◌, codes, if◌then◌else◌, leb, arith, if-cases, Bool-cases, Option-cases,
}
use clm.Agent.{
  Status, Signal, on_turn_done, turn_start, AsyncTurn, Agent, agent_busy, is_busy, error, failed,
  Code, enomem, done, turn_request, upload_request, Request, emit, enter, rate_limited, timer_for,
}
use clm.Agent.Env.{Env, Applied, apply_failed, applied, missing}
use clm.Agent.Turn.{
  ended, post_turn, request_tokens, new_turn, is_chained, chained, wait_ms, cannot_build, limited,
  waited, in_error, with_parts, sent_unless, flush_text, out_of_memory, on_llm_rl_timer, park,
  llm_dispatch, flush_pending_notify, upload_noted, file_upload_start, send_turn, start_turn_files,
  start_turn, refresh_context, begin_turn, submit, turn_done, agent_fail, rl_retry, failed_with,
}
use clm.Ratelimit.{consume}

abbrev pub bit : Bool → ℕ
bit true = 1
bit false = 0

pub bit-le : (b : Bool) → bit b ≤ 1
bit-le b = ground arith

abbrev pub held {ℓ} : {A : Type ℓ} → Option A → ℕ
held none = 0
held (some x) = 1

-- How many turns have landed, and how many prompts have begun one.
abbrev pub landed : List Signal → ℕ
landed [] = 0
landed (on_turn_done s ∷ l) = suc (landed l)
landed (_ ∷ l) = landed l

abbrev pub begun : List Signal → ℕ
begun [] = 0
begun (turn_start s ∷ l) = suc (begun l)
begun (_ ∷ l) = begun l

-- The callbacks that are still to come: the host's for a request, a timer's, and a batch's.
abbrev pub sources : Agent → ℕ
sources a = held a.wire + (held a.llm_rl_timer + (bit a.compact_rl_timer + bit a.active_batch))

abbrev pub busy : Agent → ℕ
busy a = bit (is_busy a.state)

-- One callback is to come while a turn runs, none else; what began has landed, but for the turn
-- that runs; and a request can be aborted unless it has been.
unfoldable pub Sound : ℕ → Agent → Type 0
Sound k a =
    (sources a ≡ busy a)
    × (landed a.signals + busy a ≡ begun a.signals + k)
    × (held a.inflight ≤ held a.wire)
    × (held a.wire ≤ held a.inflight + bit a.cancelling)

-- A turn that runs and waits for nothing: it is for the code to go on.
unfoldable pub Open : ℕ → Agent → Type 0
Open k a =
    (sources a ≡ 0) × (landed a.signals + 1 ≡ begun a.signals + k) × (held a.inflight ≤ held a.wire)

abbrev pub Lands : ℕ → (Agent → Status → Agent) → Type 0
Lands k land = (a : Agent) (s : Status) → Open k a → busy a ≡ 0 → Sound k (land a s)

pub ended-Lands : (k : ℕ) → Lands k ended
unfolding Open Sound
ended-Lands k a s o b = ground arith

pub posted-Sound :
    (k : ℕ) (a : Agent) (r : Request)
    → Open k a
    → busy a ≡ 1
    → Sound k (record a { wire = some r; inflight = some r })
unfolding Open Sound
posted-Sound k a r o b = ground arith

pub parked-Sound :
    (k : ℕ) (a : Agent) (turn : AsyncTurn) (ms : ℕ)
    → Open k a
    → Sound k (record (emit (enter a rate_limited) (timer_for ms)) {
      llm_rl_timer = some turn;
      rl_parked_turn = some turn;
    })
unfolding Open Sound
parked-Sound k a turn ms o = ground arith

pub post_turn-Sound :
    (k : ℕ) (land : Agent → Status → Agent) (e : Env) (a : Agent) (turn : AsyncTurn)
    → Lands k land
    → Open k a
    → busy a ≡ 1
    → Sound k (post_turn land e a turn)
unfolding Open
post_turn-Sound k land e a turn l o b =
    if-cases (Sound k) (e.post a) (λ p. posted-Sound k a (turn_request turn) o b)
      (λ p. l (in_error a (codes "request could not be sent")) (failed (e.post_error a)) o refl)

pub on_llm_rl_timer-Sound :
    (k : ℕ) (land : Agent → Status → Agent) (e : Env) (a : Agent) (turn : AsyncTurn)
    → Lands k land
    → Open k (record a { llm_rl_timer = none })
    → busy a ≡ 1
    → Sound k (on_llm_rl_timer land e a turn)
unfolding on_llm_rl_timer Open
on_llm_rl_timer-Sound k land e a turn l o b =
    post_turn-Sound k land e
      (record a {
        llm_rl_timer = none;
        rl_parked_turn = none;
        llm_rl = consume a.llm_rl e.now_usec (request_tokens turn);
      })
      turn l o b

Open-untimed : (k : ℕ) (a : Agent) → Open k a → Open k (record a { llm_rl_timer = none })
unfolding Open
Open-untimed k a o = ground arith

pub park-Sound :
    (k : ℕ) (land : Agent → Status → Agent) (e : Env) (a : Agent) (turn : AsyncTurn) (delay_us : ℕ)
    → Lands k land
    → Open k a
    → Sound k (park land e a turn delay_us)
unfolding park Open
park-Sound k land e a turn delay_us l o =
    let ms = wait_ms delay_us in
    if-cases (Sound k) e.timer_set (λ p. parked-Sound k a turn ms o)
      (λ p.
        on_llm_rl_timer-Sound k land e (emit (enter a rate_limited) (timer_for ms)) turn l
          (Open-untimed k a o) refl)

pub llm_dispatch-Sound :
    (k : ℕ) (land : Agent → Status → Agent) (e : Env) (a : Agent) (turn : AsyncTurn)
    → Lands k land
    → Open k a
    → busy a ≡ 1
    → Sound k (llm_dispatch land e a turn)
unfolding llm_dispatch Open
llm_dispatch-Sound k land e a turn l o b =
    if-cases (Sound k) (not e.has_timers) (λ p. post_turn-Sound k land e a turn l o b)
      (λ p.
        if-cases (Sound k) (limited e a turn).1
          (λ q. post_turn-Sound k land e (record a { llm_rl = (limited e a turn).0 }) turn l o b)
          (λ q.
            park-Sound k land e (record a { llm_rl = (waited e a turn).0 }) turn (waited e a turn).1
              l o))

out_of_memory-Sound : (k : ℕ) (a : Agent) → Open k a → Sound k (out_of_memory a)
unfolding Open
out_of_memory-Sound k a o =
    ended-Lands k (in_error a (codes "out of memory")) (failed enomem) o refl

-- What leaves all of that as it is.
abbrev pub Kept : Agent → Agent → Type 0
Kept a b =
    (sources b ≡ sources a)
    × (landed b.signals ≡ landed a.signals)
    × (begun b.signals ≡ begun a.signals)
    × (held b.inflight ≡ held a.inflight)
    × (held b.wire ≡ held a.wire)
    × (busy b ≡ busy a)

pub Kept-Open : (k : ℕ) (a b : Agent) → Kept a b → Open k a → Open k b
unfolding Open
Kept-Open k a b e o = omega arith

chained-Kept : (a : Agent) → Kept a (chained a)
chained-Kept a = ground arith

pub upload_noted-Kept :
    (e : Env) (a : Agent) (url : Bytes) (file_id : Option Bytes)
    → Kept a (upload_noted e a url file_id)
unfolding upload_noted
upload_noted-Kept e a url file_id = ground arith

flush-Kept : (a : Agent) → Kept a (with_parts (flush_pending_notify a))
unfolding flush_pending_notify flush_text
flush-Kept a = ground arith

send_turn-Sound :
    (k : ℕ) (e : Env) (a : Agent) (has_messages : Bool)
    → Open k a
    → busy a ≡ 1
    → Sound k (send_turn e a has_messages)
unfolding send_turn
send_turn-Sound k e a has_messages o b =
    let o' = Kept-Open k a (chained a) (chained-Kept a) o in
    if-cases (Sound k) (cannot_build e a has_messages) (λ p. out_of_memory-Sound k a o)
      (λ p.
        if-cases (Sound k) (not e.request_built) (λ q. out_of_memory-Sound k (chained a) o')
          (λ q.
            llm_dispatch-Sound k ended e (chained a) (new_turn e a) (ended-Lands k) o'
              ((chained-Kept a).5 ∙ b)))

pub start_turn_files-Sound :
    (k : ℕ) (e : Env) (a : Agent) (f : Applied)
    → Open k a
    → busy a ≡ 1
    → Sound k (start_turn_files e a f)
unfolding Open start_turn_files file_upload_start sent_unless
start_turn_files-Sound k e a apply_failed o b = send_turn-Sound k e a false o b
start_turn_files-Sound k e a applied o b = send_turn-Sound k e a true o b
start_turn_files-Sound k e a (missing url) o b =
    let same = upload_noted-Kept e a url none in
    let without = send_turn-Sound k e (record a { file_uploads = false }) true o b in
    if-cases P (not e.files_url) (λ p. without)
      (λ p.
        if-cases P (not e.upload_prepared)
          (λ q.
            send_turn-Sound k e (upload_noted e a url none) true
              (Kept-Open k a (upload_noted e a url none) same o) (same.5 ∙ b))
          (λ q.
            if-cases P e.upload_post (λ r. posted-Sound k a (upload_request url) o b)
              (λ r. without)))
  where
    P : Agent × Bool → Type 0
    P r = Sound k (sent_unless e r)

pub start_turn-Sound :
    (k : ℕ) (e : Env) (a : Agent) → Open k a → busy a ≡ 1 → Sound k (start_turn e a)
unfolding start_turn
start_turn-Sound k e a o b =
    let same = flush-Kept a in
    let o' = Kept-Open k a (with_parts (flush_pending_notify a)) same o in
    let b' = same.5 ∙ b in
    if-cases (Sound k) e.messages_built
      (λ p.
        if-cases (Sound k) (with_parts (flush_pending_notify a)).file_uploads
          (λ q.
            start_turn_files-Sound k e (with_parts (flush_pending_notify a)) e.files_apply o' b')
          (λ q. send_turn-Sound k e (with_parts (flush_pending_notify a)) true o' b'))
      (λ p. send_turn-Sound k e (with_parts (flush_pending_notify a)) false o' b')
