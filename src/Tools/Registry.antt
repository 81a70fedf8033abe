-- ===== src/Tools/Registry.antt =====
-- The registry of tools: find_tool, clm_tool_add, clm_tool_remove, tool_detach, clm_tools_free_registry
-- and the pins of the invocations on the nodes.
-- `calloc` returns an address that is not in use, an argument here.
pub mod Map
pub mod Kept
pub mod Refined
use clm.Base.{
  ℕ, ◌-◌, ◌+◌, Bytes, Bool, true, false, not, ◌&&◌, Option, none, some, List, [], ◌∷◌, ◌++◌,
  bytes_eq, if◌then◌else◌, leb, ◌==◌,
}
use clm.Agent.{Status, done, failed, other_code}
use clm.Tools.{Tool, Toolbox, detached, tell}

-- `-EEXIST` and `-ENOENT`.
abbrev pub eexist : Status
eexist = failed (other_code 17)

abbrev pub enoent : Status
enoent = failed (other_code 2)

abbrev pub write : (ℕ → Option Tool) → ℕ → Option Tool → ℕ → Option Tool
write store k t = λ j. if j == k then t else store j

abbrev pub is_named : Bytes → Option Tool → Bool
is_named name none = false
is_named name (some t) = not t.removed && bytes_eq t.name name

-- The TAILQ_FOREACH loop of `find_tool`.
unfoldable pub find_in : List ℕ → (ℕ → Option Tool) → Bytes → Option ℕ
find_in [] store name = none
find_in (k ∷ l) store name =
    let further = find_in l store name in if is_named name (store k) then some k else further

unfoldable pub find_tool : Toolbox → Bytes → Option ℕ
unfolding find_in
find_tool s name = find_in s.tools s.store name

-- `clm_tool_def` gives the fields that are set, `calloc` clears the others.
abbrev pub fresh : Tool → Tool
fresh def = record def { remembered = false; remember_allow = false; inflight = 0; removed = false }

unfoldable pub add_at : Toolbox → ℕ → Tool → Option ℕ → Toolbox × Status
add_at s k def (some old) = (s, eexist)
add_at s k def none =
    (record s { store = write s.store k (some (fresh def)); tools = s.tools ++ k ∷ [] }, done)

-- `clm_tool_add`.
unfoldable pub tool_add : Toolbox → ℕ → Tool → Toolbox × Status
unfolding add_at find_tool
tool_add s k def = add_at s k def (find_tool s def.name)

-- `tool_detach`, of the node at `k`.
unfoldable pub detach_node : Toolbox → ℕ → Option Tool → Toolbox
detach_node s k none = s
detach_node s k (some t) =
    if t.detach
    then tell (record s { store = write s.store k (some (record t { detach = false })) })
        (detached t.name)
    else s

abbrev pub without : List ℕ → ℕ → List ℕ
without [] k = []
without (j ∷ l) k = let rest = without l k in if j == k then rest else j ∷ rest

-- A node that no list holds any more is freed, or kept for the calls that run.
abbrev pub unlinked : Option Tool → Option Tool
unlinked none = none
unlinked (some t) = if t.inflight == 0 then none else some (record t { removed = true })

unfoldable pub remove_at : Toolbox → Option ℕ → Toolbox × Status
unfolding detach_node
remove_at s none = (s, enoent)
remove_at s (some k) =
    let off = detach_node s k (s.store k) in
    (
      record off {
        store = write off.store k (unlinked (off.store k));
        tools = without off.tools k;
      },
      done,
    )

-- `clm_tool_remove`.
unfoldable pub tool_remove : Toolbox → Bytes → Toolbox × Status
unfolding remove_at find_tool
tool_remove s name = remove_at s (find_tool s name)

-- An invocation takes hold of its node, and lets go of it.
abbrev held_once : Tool → Option Tool
held_once t = some (record t { inflight = t.inflight + 1 })

abbrev pub pinned : (ℕ → Option Tool) → ℕ → Option Tool → ℕ → Option Tool
pinned store k none = store
pinned store k (some t) = write store k (held_once t)

unfoldable pub pin : (ℕ → Option Tool) → Option ℕ → ℕ → Option Tool
pin store none = store
pin store (some k) = pinned store k (store k)

abbrev pub let_go : Tool → Option Tool
let_go t =
    if t.removed && leb t.inflight 1 then none else some (record t { inflight = t.inflight - 1 })

abbrev pub unpinned : (ℕ → Option Tool) → ℕ → Option Tool → ℕ → Option Tool
unpinned store k none = store
unpinned store k (some t) = write store k (let_go t)

unfoldable pub unpin : (ℕ → Option Tool) → Option ℕ → ℕ → Option Tool
unpin store none = store
unpin store (some k) = unpinned store k (store k)

-- `clm_tools_free_registry`: each node of the list goes.
unfoldable pub free_registry : Toolbox → List ℕ → Toolbox
unfolding detach_node
free_registry s [] = s
free_registry s (k ∷ l) =
    let off = detach_node s k (s.store k) in
    free_registry (record off { store = write off.store k none; tools = without off.tools k }) l

-- The TAILQ_FOREACH loop of `clm_tools_detach`.
unfoldable pub detach_nodes : Toolbox → List ℕ → Toolbox
unfolding detach_node
detach_nodes s [] = s
detach_nodes s (k ∷ l) = detach_nodes (detach_node s k (s.store k)) l
