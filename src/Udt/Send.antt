-- ===== src/Udt/Send.antt =====
-- isu-net/src/udt.cpp, `send_block`: a group begins, its loop, and its end.
use isu_net.Base.{
  Bool, List, Option, [], add_size, false, find, if◌then◌else◌, none, put, some, true, ℕ, ◌==◌,
  ◌>>=◌, ◌∷◌,
}
use isu_net.Udt.{Udt, new_node, minus_one, connect, erase_group}

-- What `assemble_send` and `new` give for a slice: where its node lies, and its mission.
pub record Assembled : Type 0 where
  pub node : ℕ
  pub mission : ℕ
  pub id : ℕ
  pub in_vaild : Bool

-- `send_block` up to the loop: a new group. `none` is the null handle that is written through, for
-- a multicast destination and for a group id that is being sent.
unfoldable pub begin_send : Bool → ℕ → ℕ → ℕ → Udt → Option Udt
begin_send is_multicast group_id handle root u =
    if is_multicast then none else elim (find group_id u.sending_groups) [
      | some other ↦ none
      | none ↦ some (record u {
        sending_groups = put group_id handle u.sending_groups;
        groups =
            put handle (record { group_id = group_id; root = root; count = minus_one; geted = 0 })
              u.groups;
        nodes = put root (new_node none) u.nodes;
      })
    ]

-- One round of its loop.
unfoldable pub send_slice : ℕ → Assembled → Udt → Option Udt
unfolding connect
send_slice handle a u = do
  group ← find handle u.groups
  connect group.root a.node (record u {
    nodes = put a.node (new_node (some a.mission)) u.nodes;
    missions = put a.mission a.id u.missions;
  })

-- The loop over the slices, with the number sent; it ends at the first that the core refuses.
unfoldable pub send_slices : ℕ → List Assembled → ℕ → Udt → Option (ℕ × Udt)
unfolding send_slice
send_slices handle [] count u = some (count, u)
send_slices handle (a ∷ slices) count u = send_slice handle a u >>= λ u1. elim a.in_vaild [
  | true ↦ send_slices handle slices (add_size count 1) u1
  | false ↦ some (add_size count 1, u1)
]

-- `_count` once the number of slices is known.
unfoldable pub set_count : ℕ → ℕ → Udt → Option Udt
set_count handle count u = do
  group ← find handle u.groups
  some (record u { groups = put handle (record group { count = count }) u.groups })

unfoldable pub all_geted : ℕ → Udt → Option Bool
all_geted handle u = do group ← find handle u.groups; some (group.geted == group.count)

-- `send_block`, when nothing comes in between.
unfoldable pub send_block : Bool → ℕ → ℕ → ℕ → List Assembled → Udt → Option Udt
unfolding begin_send send_slices set_count all_geted erase_group
send_block is_multicast group_id handle root slices u = do
  u1 ← begin_send is_multicast group_id handle root u
  r ← send_slices handle slices 0 u1
  u2 ← set_count handle r.0 r.1
  ended ← all_geted handle u2
  let erased = erase_group group_id false u2
  if ended then erased else some u2
