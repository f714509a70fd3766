-- ===== src/Udt/Rounds.antt =====
-- isu-net/src/udt.cpp, the loop of `send_block`: no round fails.
use isu_net.Base.{
  Bool-cases, List, [], add_size, arith, false, find, find-put, find-put_self, inl, inr, length,
  put, refl, size_mod, some, suc, true, ℕ, ◌+◌, ◌<◌, ◌==◌, ◌∙◌, ◌∷◌, ◌≡◌, ◌≤◌,
}
use isu_net.Udt.{Udt, UdtGroup, GroupListNode, new_node, connect, set_next, set_pre}
use isu_net.Udt.Send.{Assembled, send_slice, send_slices}
use isu_net.Udt.Apart.{SameAccount, send_slice-SameAccount}

-- The group is there, and its root.
pub record IsThere (handle : ℕ) (g : UdtGroup) (u : Udt) : Type 0 where
  pub group : find handle u.groups ≡ some g
  pub root : (m : GroupListNode) × (find g.root u.nodes ≡ some m)

put-is_there :
    (a r : ℕ) (n m : GroupListNode) (nodes : List (ℕ × GroupListNode))
    → find r nodes ≡ some m
    → (x : GroupListNode) × (find r (put a n nodes) ≡ some x)
put-is_there a r n m nodes h = elim (Bool-cases (a == r)) [
  | inl same ↦ (n, rw (find-put a r n nodes, same) refl)
  | inr differ ↦ (m, rw (find-put a r n nodes, differ) h)
]

-- A round of the loop has what it needs.
send_slice-IsThere :
    (handle : ℕ) (g : UdtGroup) (a : Assembled) (u : Udt)
    → IsThere handle g u
    → (w : Udt) × (send_slice handle a u ≡ some w) × IsThere handle g w
unfolding send_slice connect set_next set_pre
send_slice-IsThere handle g a u v =
    let (m, at_root) = v.root in
    let new = new_node (some a.mission) in
    let (m1, found) = put-is_there a.node g.root new m u.nodes at_root in
    let behind : GroupListNode = record m1 { next = some a.node } in
    let (m2, again) =
      put-is_there g.root a.node behind new (put a.node new u.nodes)
        (find-put_self a.node new u.nodes) in
    let linked : GroupListNode = record m2 { pre = some g.root } in
    let (m3, last) =
      put-is_there a.node g.root linked behind (put g.root behind (put a.node new u.nodes))
        (find-put_self g.root behind (put a.node new u.nodes)) in
    let w : Udt = record u {
      missions = put a.mission a.id u.missions;
      nodes = put a.node linked (put g.root behind (put a.node new u.nodes));
    } in
    (w, rw v.group (rw found (rw again refl)), record { group = v.group; root = (m3, last) })

send_slices-valid :
    (handle : ℕ) (a : Assembled) (slices : List Assembled) (count : ℕ) (u w : Udt)
    → send_slice handle a u ≡ some w
    → a.in_vaild ≡ true
    → send_slices handle (a ∷ slices) count u ≡ send_slices handle slices (add_size count 1) w
unfolding send_slices
send_slices-valid handle a slices count u w is going = rw is (rw going refl)

send_slices-refused :
    (handle : ℕ) (a : Assembled) (slices : List Assembled) (count : ℕ) (u w : Udt)
    → send_slice handle a u ≡ some w
    → a.in_vaild ≡ false
    → send_slices handle (a ∷ slices) count u ≡ some (add_size count 1, w)
unfolding send_slices
send_slices-refused handle a slices count u w is refused = rw is (rw refused refl)

pub send_slices-IsThere :
    (handle : ℕ) (g : UdtGroup) (slices : List Assembled) (count : ℕ) (u : Udt)
    → IsThere handle g u
    → count + length slices < size_mod
    → (n : ℕ) × (w : Udt) × (send_slices handle slices count u ≡ some (n, w))
      × SameAccount u w
      × (count ≤ n)
      × (0 < length slices → count < n)
unfolding send_slices
send_slices-IsThere handle g [] count u v small = (
  count,
  u,
  refl,
  record { groups = refl; entries = refl; sent = refl; callback = refl },
  omega arith,
  λ h. absurd (omega arith),
)
send_slices-IsThere handle g (a ∷ slices) count u v small =
    let (w, one, v1) = send_slice-IsThere handle g a u v in
    let same = send_slice-SameAccount handle a u w one in
    let next : add_size count 1 ≡ suc count = omega arith in
    elim (Bool-cases a.in_vaild) [
      | inr refused ↦ (
        add_size count 1,
        w,
        send_slices-refused handle a slices count u w one refused,
        same,
        omega arith,
        λ h. omega arith,
      )
      | inl going ↦
          let (n, x, rest, same1, low, more) =
            send_slices-IsThere handle g slices (add_size count 1) w v1 (omega arith) in
          (
            n,
            x,
            send_slices-valid handle a slices count u w one going ∙ rest,
            record {
              groups = same1.groups ∙ same.groups;
              entries = same1.entries ∙ same.entries;
              sent = same1.sent ∙ same.sent;
              callback = same1.callback ∙ same.callback;
            },
            omega arith,
            λ h. omega arith,
          )
    ]
