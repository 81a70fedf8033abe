-- ===== src/Tools/Sound/Sent.antt =====
-- `clm_tools_dispatch` as a whole: it starts a sound batch, and each call goes its way.
use clm.Agent.{done}
use clm.Agent.Waiting.{bit}
use clm.Base.{
  ℕ, zero, suc, ◌+◌, ◌≤◌, ◌<◌, ◌≡◌, refl, sym, ap, ◌∙◌, Bytes, true, false, not, ◌||◌, none, some,
  List, [], ◌∷◌, length, ◌==◌, arith, if-cases,
}
use clm.History.{
  Message, ToolCall, Role, system, user, assistant, tool, create, add_tool_call, add_call_at,
}
use clm.Ratelimit.{allow, delay, consume}
use clm.Tools.{Invocation, Toolbox, Ext, inv_at}
use clm.Tools.Counts.{count, count-append, count-full}
use clm.Tools.Dispatch.{
  Call, or_same, mirrored, begun, emitted, with_rl, limited, hold_back, dispatch_at, dispatch_loop,
  dispatch_built, dispatch,
}
use clm.Tools.Finalize.{release}
use clm.Tools.Sound.{
  is_stray, is_ready, is_answer, given, inflight_of, ended, Watch, Apart, Counted, Sound,
}
use clm.Tools.Sound.Gates.{update_ready-Sound}
use clm.Tools.Sound.Hooks.{dispatch_one-Sound}
use clm.Tools.Sound.Start.{Grown, has_id, can_copy, build_all-Grown}
use clm.Tools.Sound.Steps.{rl-Sound, release-Sound}

call_role :
    (r : Role) (m : Message) (tc : ToolCall) → (or_same m (add_call_at r m tc)).role ≡ m.role
unfolding add_call_at
call_role system m tc = refl
call_role user m tc = refl
call_role assistant m tc = refl
call_role tool m tc = refl

mirrored_role : (m : Message) (l : List Invocation) → (mirrored m l).role ≡ m.role
unfolding mirrored add_tool_call
mirrored_role m [] = refl
mirrored_role m (v ∷ l) =
    let tc : ToolCall = record { id = some v.id; name = some v.name; args = some v.args } in
    mirrored_role (or_same m (add_call_at m.role m tc)) l ∙ call_role m.role m tc

is_stray-limited : (v : Invocation) → is_ready v ≡ true → is_stray (limited v) ≡ false
is_stray-limited v r = ground arith

module _ (w : Watch) where
  hold_back-Sound :
      (e : Ext) (h i : ℕ) (s : Toolbox)
      → Apart i w.other
      → is_ready (inv_at s i) ≡ true
      → Sound w h s
      → Sound w h (hold_back e s i)
  unfolding hold_back
  hold_back-Sound e h i s n r q =
      let rl = (delay s.tool_rl e.now_usec 1).0 in
      let asked = with_rl s rl in
      let q' = rl-Sound w h s rl q in
      if-cases (Sound w h) (e.arms_rl (inv_at s i))
        (λ a.
          update_ready-Sound w h i asked limited n r
            (record { completed = refl; def = refl; id = refl }) (is_stray-limited (inv_at s i) r)
            q')
        (λ a.
          dispatch_one-Sound w e h i (with_rl asked (consume asked.tool_rl e.now_usec 1)) n r
            (rl-Sound w h asked (consume asked.tool_rl e.now_usec 1) q'))

  dispatch_at-Sound :
      (e : Ext) (h i : ℕ) (s : Toolbox)
      → Apart i w.other
      → is_ready (inv_at s i) ≡ true
      → Sound w h s
      → Sound w h (dispatch_at e s i)
  unfolding dispatch_at
  dispatch_at-Sound e h i s n r q =
      let asked = with_rl s (allow s.tool_rl e.now_usec 1).0 in
      let q' = rl-Sound w h s (allow s.tool_rl e.now_usec 1).0 q in
      if-cases (Sound w h) ((allow s.tool_rl e.now_usec 1).1 || not e.has_timers)
        (λ a. dispatch_one-Sound w e h i asked n r q') (λ a. hold_back-Sound e h i asked n r q')

-- The same, with an eye on the invocation `j`, which is ready.
abbrev watching : Watch → ℕ → Watch
watching w j = record w { other = some j; ready = true }

abbrev pub watching_none : Watch → Watch
watching_none w = record w { other = none; ready = true }

watched-ready :
    (w : Watch) (h j : ℕ) (s : Toolbox)
    → Sound (watching w j) (suc h) s
    → is_ready (inv_at s j) ≡ true
unfolding Sound Counted
watched-ready w h j s (c, r, v) = (r (omega (arith, c.1))).1

watch-Sound :
    (w : Watch) (h j : ℕ) (s : Toolbox)
    → is_ready (inv_at s j) ≡ true
    → Sound (watching_none w) h s
    → Sound (watching w j) h s
unfolding Sound Counted
watch-Sound w h j s k (c, r, v) = (c, (λ p. ((r p).0, k)), v)

dispatch_loop-Sound :
    (w : Watch) (e : Ext) (n i : ℕ) (s : Toolbox)
    → ((j : ℕ) → i ≤ j → j < i + n → Sound (watching w j) 1 s)
    → Sound (watching_none w) 1 s
    → Sound (watching_none w) 1 (dispatch_loop e n i s)
unfolding dispatch_loop
dispatch_loop-Sound w e zero i s k q = q
dispatch_loop-Sound w e (suc n) i s k q =
    let ready = watched-ready w 0 i s (k i (omega arith) (omega arith)) in
    dispatch_loop-Sound w e n (i + 1) (dispatch_at e s i)
      (λ j a b.
        dispatch_at-Sound (watching w j) e 1 i s (λ same. absurd (omega (arith, same, a))) ready
          (k j (omega arith) (omega arith)))
      (dispatch_at-Sound (watching_none w) e 1 i s tt ready q)

ended_none : (n : ℕ) → 1 ≤ n → ended n ≡ 0
ended_none zero p = absurd (omega arith)
ended_none (suc n) p = refl

given-emitted :
    (id : Bytes) (s : Toolbox) → given id (emitted s).agent.history ≡ given id s.agent.history
given-emitted id s =
    let m = mirrored (create assistant) s.batch.inv in
    let no_answer : is_answer id m ≡ false =
      rw (mirrored_role (create assistant) s.batch.inv) refl in
    omega (arith, count-append (is_answer id) s.agent.history (m ∷ []), ap bit no_answer)

-- A batch as it is built, when no call ran before it.
emitted-Sound :
    (w : Watch) (n m : ℕ) (s t : Toolbox)
    → Grown w n m (begun s n) t
    → 1 ≤ n
    → inflight_of (s.store w.node) ≡ 0
    → given w.id s.agent.history + m ≡ w.total
    → Sound (watching_none w) 1 (emitted t)
unfolding Sound Counted
emitted-Sound w n m s t g p z total =
    let new = given-emitted w.id t in
    let pending : t.batch.pending ≡ n + 1 = ap (λ x. x.batch.pending) g.rest in
    let open_end = ended_none t.batch.pending (omega (arith, pending)) in
    let active : bit t.active ≡ 1 = ap (λ x. bit x.active) g.rest in
    let history : given w.id t.agent.history ≡ given w.id s.agent.history =
      ap (λ x. given w.id x.agent.history) g.rest in
    (
      (
        ap (λ x. x.batch.detached) g.rest,
        omega (arith, pending, g.open_calls),
        g.strays,
        ap (λ x. x.frees) g.rest ∙ sym open_end,
        ap (λ x. x.finals) g.rest ∙ sym open_end,
        omega (arith, active, open_end),
        omega (arith, g.pins, z),
      ),
      (λ q. (omega (arith, new, history, g.owed, total), tt)),
      (λ q. absurd (omega (arith, q, pending))),
    )

emitted-ready :
    (w : Watch) (n m : ℕ) (s t : Toolbox) (j : ℕ)
    → Grown w n m (begun s n) t
    → j < n
    → is_ready (inv_at t j) ≡ true
emitted-ready w n m s t j g p =
    count-full is_ready t.batch.inv j (omega (arith, g.ready, g.calls)) (omega (arith, g.calls, p))

built-Sound :
    (w : Watch) (e : Ext) (n m : ℕ) (s t : Toolbox)
    → Grown w n m (begun s n) t
    → 1 ≤ n
    → inflight_of (s.store w.node) ≡ 0
    → given w.id s.agent.history + m ≡ w.total
    → Sound (watching_none w) 0 (release e (dispatch_loop e n 0 (emitted t)))
built-Sound w e n m s t g p z total =
    let q = emitted-Sound w n m s t g p z total in
    release-Sound (watching_none w) e 0 (dispatch_loop e n 0 (emitted t)) (
      dispatch_loop-Sound w e n 0 (emitted t)
        (λ j a b. watch-Sound w 1 j (emitted t) (emitted-ready w n m s t j g (omega (arith, b))) q)
        q)

-- A batch of calls that can be copied is started, whatever its calls do, and it is sound then.
pub dispatch-Sound :
    (w : Watch) (e : Ext) (s : Toolbox) (calls : List Call)
    → can_copy calls ≡ true
    → 1 ≤ length calls
    → inflight_of (s.store w.node) ≡ 0
    → given w.id s.agent.history + count (has_id w.id) calls ≡ w.total
    → (t : Toolbox) × (dispatch e s calls ≡ some (t, done)) × Sound (watching_none w) 0 t
unfolding dispatch dispatch_built
dispatch-Sound w e s calls c p z total =
    let n = length calls in
    let (t, eq, g) = build_all-Grown w e calls (begun s n) c in
    let some_calls : (n == 0) ≡ false = ground arith in
    (
      release e (dispatch_loop e n 0 (emitted t)),
      rw (some_calls, eq) refl,
      built-Sound w e n (count (has_id w.id) calls) s t g p z total,
    )
