-- ===== src/Udt.antt =====
-- isu-net/src/udt.cpp and isu-net/isu-net/udt.hpp: messages as groups of slices over the datagrams
-- of `trans_core`. What the core answers is an argument; nodes, groups and mission handles are
-- known by their addresses, since packets, groups and the lists between them point at each other.
pub mod Ident
pub mod Send
pub mod Receive
pub mod Follows
pub mod Groups
pub mod Transfer
pub mod Nodes
pub mod Linking
pub mod Flatness
pub mod Reach
pub mod Ticks
pub mod Counting
pub mod Settling
pub mod Apart
pub mod Rounds
pub mod Block
pub mod Callback
use isu_net.Base.{
  Bool, List, Option, [], add_size, erase, find, if◌then◌else◌, none, not, put, some, suc, true,
  zero, ℕ, ◌&&◌, ◌++◌, ◌==◌, ◌>>=◌, ◌||◌, ◌∷◌,
}
use isu_net.Slice.{Combination}

-- A `group_list_node`: it stands in a packet, or is the root of a group.
pub record GroupListNode : Type 0 where
  pub pre : Option ℕ
  pub next : Option ℕ
  pub value : Option ℕ

-- A `udt_group`; its `_root` is a node.
pub record UdtGroup : Type 0 where
  pub group_id : ℕ
  pub root : ℕ
  pub count : ℕ
  pub geted : ℕ

-- A `_group_ident` as the peer reads it; the locker and the node are the sender's own.
pub record GroupIdent : Type 0 where
  pub group_id : ℕ
  pub slice_start : ℕ
  pub data_size : ℕ

-- A `udt`, with the memory it points into, what it cancelled in the core, and the groups its two
-- callbacks were called for.
pub record Udt : Type 0 where
  pub nodes : List (ℕ × GroupListNode)
  pub missions : List (ℕ × ℕ)
  pub groups : List (ℕ × UdtGroup)
  pub sending_groups : List (ℕ × ℕ)
  pub recv_groups : List (ℕ × Combination)
  pub group_id_allocer : ℕ
  pub has_send_callback : Bool
  pub has_bad_send : Bool
  pub cancelled : List ℕ
  pub sent : List ℕ
  pub bad_sends : List ℕ

-- `-1` as a `size_t`.
abbrev pub minus_one : ℕ
minus_one = 4294967295

abbrev pub new_node : Option ℕ → GroupListNode
new_node value = record { pre = none; next = none; value = value }

-- `next = to` of the node at `address`; `none` is a node that is not there.
unfoldable pub set_next : ℕ → Option ℕ → Udt → Option Udt
set_next address to u = do
  node ← find address u.nodes
  some (record u { nodes = put address (record node { next = to }) u.nodes })

unfoldable pub set_pre : ℕ → Option ℕ → Udt → Option Udt
set_pre address to u = do
  node ← find address u.nodes
  some (record u { nodes = put address (record node { pre = to }) u.nodes })

-- `group_list_node::connect`, for a node that is not null.
unfoldable pub connect : ℕ → ℕ → Udt → Option Udt
unfolding set_next set_pre
connect this node u = set_next this (some node) u >>= λ u1. set_pre node (some this) u1

-- `group_list_node::detach`: the node keeps its own pointers.
unfoldable pub detach : ℕ → Udt → Option Udt
unfolding set_next set_pre
detach address u = do
  node ← find address u.nodes
  u1 ← elim node.pre [ none ↦ some u | some before ↦ set_next before node.next u ]
  elim node.next [ none ↦ some u1 | some behind ↦ set_pre behind node.pre u1 ]

-- `delete`; `none` is a handle that was deleted before.
unfoldable pub delete_mission : ℕ → Udt → Option Udt
delete_mission address u = do
  id ← find address u.missions
  some (record u { missions = erase address u.missions })

-- The function that `_cancel_group` runs on every node. `_core.cancel_io` is recorded: what the
-- core does back, a posted failure or a call of `bad_send` for the mission, is not followed.
unfoldable pub cancel_node : ℕ → Udt → Option Udt
unfolding delete_mission
cancel_node address u = do
  node ← find address u.nodes
  elim node.value [
    | none ↦ some u
    | some mission ↦ do
      id ← find mission u.missions
      delete_mission mission (record u { cancelled = u.cancelled ++ id ∷ [] })
  ]

-- `forward_fetch` and `back_fetch` from the node they start at, on fuel.
unfoldable pub forward_fetch : ℕ → Option ℕ → Udt → Option Udt
forward_fetch zero start u = elim start [ none ↦ some u | some address ↦ none ]
forward_fetch (suc fuel) none u = some u
forward_fetch (suc fuel) (some address) u = do
  u1 ← cancel_node address u
  node ← find address u1.nodes
  forward_fetch fuel node.pre u1

unfoldable pub back_fetch : ℕ → Option ℕ → Udt → Option Udt
back_fetch zero start u = elim start [ none ↦ some u | some address ↦ none ]
back_fetch (suc fuel) none u = some u
back_fetch (suc fuel) (some address) u = do
  u1 ← cancel_node address u
  node ← find address u1.nodes
  back_fetch fuel node.next u1

-- `_cancel_group`, which is `fetch_group_list`; nobody reads the number of nodes that it counts.
unfoldable pub cancel_group : ℕ → ℕ → Udt → Option Udt
unfolding cancel_node forward_fetch back_fetch
cancel_group fuel address u = do
  u1 ← cancel_node address u
  first ← find address u1.nodes
  u2 ← forward_fetch fuel first.pre u1
  second ← find address u2.nodes
  back_fetch fuel second.next u2

-- `_cancel_slice`.
unfoldable pub cancel_slice : ℕ → Udt → Option Udt
unfolding detach delete_mission
cancel_slice address u = do
  u1 ← detach address u
  node ← find address u1.nodes
  elim node.value [ none ↦ some u1 | some mission ↦ delete_mission mission u1 ]

unfoldable pub alloc_group_id : Udt → ℕ × Udt
alloc_group_id u =
    (u.group_id_allocer, record u { group_id_allocer = add_size u.group_id_allocer 1 })

-- The end of a group; `none` is the exception that an empty callback throws.
unfoldable pub complete : ℕ → Udt → Option Udt
complete id u =
    if u.has_send_callback
    then some (record u { sent = u.sent ++ id ∷ []; sending_groups = erase id u.sending_groups })
    else none

-- `_erase_group`; with `tick`, one more slice has come to an end.
unfoldable pub erase_group : ℕ → Bool → Udt → Option Udt
unfolding complete
erase_group id tick u = elim (find id u.sending_groups) [
  | none ↦ some u
  | some handle ↦ do
    group ← find handle u.groups
    let geted = if tick then add_size group.geted 1 else group.geted
    let u1 : Udt = record u { groups = put handle (record group { geted = geted }) u.groups }
    if not tick || geted == group.count then complete id u1 else some u1
]

-- `_udt_bad_send`, for the packet with this group and this node, as long as the core calls nothing
-- back: it holds the packet's locker, which only a call from inside would find taken.
unfoldable pub udt_bad_send : ℕ → ℕ → ℕ → Udt → Option Udt
unfolding cancel_group
udt_bad_send fuel group_id node u = do
  u1 ← cancel_group fuel node u
  let told : Udt =
      if u1.has_bad_send then record u1 { bad_sends = u1.bad_sends ++ group_id ∷ [] } else u1
  some (record told { sending_groups = erase group_id told.sending_groups })

-- `bad_handle`; `retry_limit` is the core's limit for a mission.
unfoldable pub bad_handle : (ℕ → ℕ) → UdtGroup → Udt → Option Bool
bad_handle retry_limit group u = do
  root ← find group.root u.nodes
  elim root.value [
    | none ↦ some true
    | some mission ↦ do id ← find mission u.missions; some (not (retry_limit id == minus_one))
  ]

-- `udt::cancel_io`.
unfoldable pub cancel_io : (ℕ → ℕ) → ℕ → ℕ → Bool → Udt → Option Udt
unfolding bad_handle cancel_group
cancel_io retry_limit fuel handle active_io_failed u = do
  group ← find handle u.groups
  bad ← bad_handle retry_limit group u
  let cancel = cancel_group fuel group.root u >>= λ u1. some (
      if active_io_failed && u1.has_bad_send
      then record u1 { bad_sends = u1.bad_sends ++ group.group_id ∷ [] }
      else u1)
  if bad then some u else cancel
