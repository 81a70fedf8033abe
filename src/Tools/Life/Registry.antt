-- ===== src/Tools/Life/Registry.antt =====
-- Tools that come and go while a batch runs.
use clm.Base.{
  ℕ, ◌≡◌, refl, sym, ap, false, Option, none, some, List, [], ◌∷◌, ◌++◌, arith, if-cases,
}
use clm.Tools.{Tool, Toolbox}
use clm.Tools.Registry.{
  add_at, remove_at, detach_node, detach_nodes, fresh, unlinked, write, without,
}
use clm.Tools.Sound.{inflight_of, Watch, Counted, Sound}
use clm.Tools.Sound.Gates.{inflight-write}
use clm.Tools.Sound.Steps.{store-Sound, tell-Sound}

inflight-unlinked : (t : Option Tool) → inflight_of (unlinked t) ≡ inflight_of t
inflight-unlinked none = refl
inflight-unlinked (some t) = ground arith

tools-Sound :
    (w : Watch) (s : Toolbox) (l : List ℕ) → Sound w 0 s → Sound w 0 (record s { tools = l })
unfolding Sound Counted
tools-Sound w s l q = q

module _ (w : Watch) where
  node-Sound :
      (s : Toolbox) (k : ℕ) (o : Option Tool)
      → s.store k ≡ o
      → Sound w 0 s
      → Sound w 0 (detach_node s k o)
  unfolding detach_node
  node-Sound s k none e q = q
  node-Sound s k (some t) e q =
      let t' : Tool = record t { detach = false } in
      if-cases (Sound w 0) t.detach
        (λ d.
          tell-Sound w 0 (record s { store = write s.store k (some t') }) _
            (store-Sound w 0 s (write s.store k (some t'))
              (inflight-write s.store k w.node (some t') (ap inflight_of (sym e))) q))
        (λ d. q)

  pub nodes-Sound : (s : Toolbox) (l : List ℕ) → Sound w 0 s → Sound w 0 (detach_nodes s l)
  unfolding detach_nodes
  nodes-Sound s [] q = q
  nodes-Sound s (k ∷ l) q =
      nodes-Sound (detach_node s k (s.store k)) l (node-Sound s k (s.store k) refl q)

  pub add-Sound :
      (s : Toolbox) (k : ℕ) (def : Tool) (o : Option ℕ)
      → s.store k ≡ none
      → Sound w 0 s
      → Sound w 0 (add_at s k def o).0
  unfolding add_at
  add-Sound s k def (some old) f q = q
  add-Sound s k def none f q =
      tools-Sound w (record s { store = write s.store k (some (fresh def)) }) (s.tools ++ k ∷ [])
        (store-Sound w 0 s (write s.store k (some (fresh def)))
          (inflight-write s.store k w.node (some (fresh def)) (ap inflight_of (sym f))) q)

  pub remove-Sound : (s : Toolbox) (o : Option ℕ) → Sound w 0 s → Sound w 0 (remove_at s o).0
  unfolding remove_at
  remove-Sound s none q = q
  remove-Sound s (some k) q =
      let off = detach_node s k (s.store k) in
      let store = write off.store k (unlinked (off.store k)) in
      tools-Sound w (record off { store = store }) (without off.tools k)
        (store-Sound w 0 off store
          (inflight-write off.store k w.node (unlinked (off.store k))
            (inflight-unlinked (off.store k)))
          (node-Sound s k (s.store k) refl q))
