-- ===== src/Tools/Life/Batch.antt =====
-- What a batch promises: libclm/tools.c, from clm_tools_dispatch to the end of the last call.
use clm.Agent.{done}
use clm.Base.{
  ℕ, ◌+◌, ◌≤◌, ◌≡◌, refl, ◌⊎◌, inl, inr, Bytes, true, false, Option, none, some, List, [], length,
  arith,
}
use clm.Tools.{Tool, Toolbox, Ext, inv_at}
use clm.Tools.Counts.{count, count-at, open-lt}
use clm.Tools.Detach.{Gone}
use clm.Tools.Dispatch.{Call, dispatch}
use clm.Tools.Finalize.{handed_over}
use clm.Tools.Life.{Reach}
use clm.Tools.Life.Reached.{Held, Idle, dispatch-Held}
use clm.Tools.Sound.{is_open, is_owed, is_pinning, given, inflight_of, ended, Watch, Sound, Counted}
use clm.Tools.Sound.Sent.{dispatch-Sound}
use clm.Tools.Sound.Start.{has_id, can_copy}
use clm.Agent.Waiting.{bit}

abbrev watch : Bytes → ℕ → ℕ → Watch
watch id total k = record { id = id; total = total; node = k; other = none; ready = true }

-- The batch is freed once, when no call is open any more, and then the turn goes on, once; it does not
-- where the agent is gone.
pub IsOnce : Toolbox → Type 0
IsOnce u =
    (u.batch.pending ≡ count is_open u.batch.inv)
    × (u.frees ≡ ended u.batch.pending)
    × (((u.batch.detached ≡ false) × (u.finals ≡ ended u.batch.pending))
        ⊎ ((u.batch.detached ≡ true) × (u.finals ≡ 0)))

Held-IsOnce : (w : Watch) (u : Toolbox) → Held w u → IsOnce u
unfolding Held Sound Counted Gone IsOnce
Held-IsOnce w u (inl (c, r, v)) = (omega (arith, c.1), c.3, inl (c.0, c.4))
Held-IsOnce w u (inr g) = (g.1, g.3, inr (g.0, g.4))

-- The results that the history has for the id are those of the calls that are over; and the turn has
-- gone on from a history that has all of them.
pub IsAnswered : Bytes → ℕ → Toolbox → Type 0
IsAnswered id total u =
    (u.batch.detached ≡ true)
    ⊎ ((1 ≤ u.batch.pending → given id u.agent.history + count (is_owed id) u.batch.inv ≡ total)
        × (u.batch.pending ≡ 0
            → (e : Ext) × (t : Toolbox) × (given id t.agent.history ≡ total)
              × (u.agent ≡ handed_over e t)))

Held-IsAnswered :
    (id : Bytes) (total k : ℕ) (u : Toolbox) → Held (watch id total k) u → IsAnswered id total u
unfolding Held Sound Counted Gone IsAnswered
Held-IsAnswered id total k u (inl (c, r, v)) = inr ((λ p. (r p).0), v)
Held-IsAnswered id total k u (inr g) = inl g.0

-- An open call of an agent that is there finds its tool.
pub IsPinned : Toolbox → Type 0
IsPinned u =
    (i k : ℕ)
    → u.batch.detached ≡ false
    → (inv_at u i).completed ≡ false
    → (inv_at u i).def ≡ some k
    → (t : Tool) × (u.store k ≡ some t)

inflight-there : (o : Option Tool) → 1 ≤ inflight_of o → (t : Tool) × (o ≡ some t)
inflight-there none p = absurd (omega arith)
inflight-there (some t) p = (t, refl)

Held-pinned :
    (w : Watch) (u : Toolbox) (i : ℕ)
    → Held w u
    → u.batch.detached ≡ false
    → (inv_at u i).completed ≡ false
    → (inv_at u i).def ≡ some w.node
    → (t : Tool) × (u.store w.node ≡ some t)
unfolding Held Sound Counted Gone
Held-pinned w u i (inl (c, r, v)) d o def =
    let one = count-at (is_pinning w.node) u.batch.inv i (open-lt u.batch.inv i o) in
    let pins : bit (is_pinning w.node (inv_at u i)) ≡ 1 = rw (o, def) (ground arith) in
    inflight-there (u.store w.node) (omega (arith, one, pins, c.6))
Held-pinned w u i (inr g) d o def = cc (g.0, d)

module _ (e : Ext) (s : Toolbox) (calls : List Call) (c : can_copy calls ≡ true)
    (p : 1 ≤ length calls) (z : Idle s) where
  -- A batch of calls whose members are strings, when nothing ran before it, is started whatever its calls
  -- do; and from then on, after any steps, a detach among them only where no tool reports inside of its
  -- cancel, the batch is freed and the turn goes on once, which is when the last call is over; where the
  -- agent is gone the batch is only freed.
  pub Reach-IsOnce :
      (t : Toolbox) × (dispatch e s calls ≡ some (t, done)) × ((u : Toolbox) → Reach t u → IsOnce u)
  Reach-IsOnce =
      let w = watch [] (given [] s.agent.history + count (has_id []) calls) 0 in
      let (t, eq, q) = dispatch-Sound w e s calls c p (z 0) refl in
      (t, eq, (λ u r. Held-IsOnce w u (dispatch-Held w e s t u calls c p z refl eq r)))

  -- The same batch, after any such steps: for each id, the results in the history and the calls that owe
  -- one are what the history had before and the calls of the batch; where the batch is over and its agent is
  -- there, the turn has gone on from a history in which each call has its result.
  pub Reach-IsAnswered :
      (t : Toolbox) × (dispatch e s calls ≡ some (t, done))
      × ((id : Bytes) (u : Toolbox)
          → Reach t u
          → IsAnswered id (given id s.agent.history + count (has_id id) calls) u)
  Reach-IsAnswered =
      let total : Bytes → ℕ = λ id. given id s.agent.history + count (has_id id) calls in
      let (t, eq, q) = dispatch-Sound (watch [] (total []) 0) e s calls c p (z 0) refl in
      (
        t,
        eq,
        (λ id u r.
            Held-IsAnswered id (total id) 0 u
              (dispatch-Held (watch id (total id) 0) e s t u calls c p z refl eq r)),
      )

  -- The same batch, after any such steps, the removal of tools among them: while the agent is there, the tool
  -- that an open call points to has not been freed.
  pub Reach-IsPinned :
      (t : Toolbox) × (dispatch e s calls ≡ some (t, done))
      × ((u : Toolbox) → Reach t u → IsPinned u)
  unfolding IsPinned
  Reach-IsPinned =
      let total : ℕ = given [] s.agent.history + count (has_id []) calls in
      let (t, eq, q) = dispatch-Sound (watch [] total 0) e s calls c p (z 0) refl in
      (
        t,
        eq,
        (λ u r i k d o def.
            Held-pinned (watch [] total k) u i
              (dispatch-Held (watch [] total k) e s t u calls c p z refl eq r) d o def),
      )
