-- ===== src/Udt/Apart.antt =====
-- isu-net/src/udt.cpp: steps that leave the account of a group alone, and the loop of `send_block`.
use isu_net.Base.{
  >>=-eq-some, Option, ap, arith, find, inl, inr, refl, some, some-injective, subst, suc, ℕ, ◌<◌,
  ◌∙◌, ◌≡◌,
}
use isu_net.Udt.{Udt, minus_one, connect, set_next, set_pre}
use isu_net.Udt.Send.{Assembled, send_slice}
use isu_net.Udt.Ticks.{Phase, sending, calls, LeavesAlone}
use isu_net.Udt.Counting.{Counts, MayWait, IsOver, EndsTrue, count_at}

-- What is not the account of the send.
pub record SameAccount (u w : Udt) : Type 0 where
  pub groups : w.groups ≡ u.groups
  pub entries : w.sending_groups ≡ u.sending_groups
  pub sent : w.sent ≡ u.sent
  pub callback : w.has_send_callback ≡ u.has_send_callback

set_next-SameAccount :
    (address : ℕ) (to : Option ℕ) (u w : Udt) → set_next address to u ≡ some w → SameAccount u w
unfolding set_next
set_next-SameAccount address to u w is =
    let (node, there, done) = >>=-eq-some (find address u.nodes) _ is in
    subst (SameAccount u) (some-injective done)
      (record { groups = refl; entries = refl; sent = refl; callback = refl })

set_pre-SameAccount :
    (address : ℕ) (to : Option ℕ) (u w : Udt) → set_pre address to u ≡ some w → SameAccount u w
unfolding set_pre
set_pre-SameAccount address to u w is =
    let (node, there, done) = >>=-eq-some (find address u.nodes) _ is in
    subst (SameAccount u) (some-injective done)
      (record { groups = refl; entries = refl; sent = refl; callback = refl })

pub send_slice-SameAccount :
    (handle : ℕ) (a : Assembled) (u w : Udt) → send_slice handle a u ≡ some w → SameAccount u w
unfolding send_slice connect
send_slice-SameAccount handle a u w is =
    let (g, there, connects) = >>=-eq-some (find handle u.groups) _ is in
    let (v, first, second) = >>=-eq-some _ _ connects in
    let one = set_next-SameAccount g.root (some a.node) _ v first in
    let two = set_pre-SameAccount a.node (some g.root) v w second in
    record {
      groups = two.groups ∙ one.groups;
      entries = two.entries ∙ one.entries;
      sent = two.sent ∙ one.sent;
      callback = two.callback ∙ one.callback;
    }

-- A change that leaves the send alone leaves its account.
pub LeavesAlone-Counts :
    (group_id handle before : ℕ) (p : Phase) (ended : ℕ) (u w : Udt)
    → Counts group_id handle before p ended u
    → LeavesAlone group_id handle u w
    → Counts group_id handle before p ended w
LeavesAlone-Counts group_id handle before p ended u w c l = record {
  callback = l.callback ∙ c.callback;
  group = let (g, there, geted, count) = c.group in (g, l.group ∙ there, geted, count);
  bounded = c.bounded;
  small = c.small;
  equal = c.equal;
  entry = elim c.entry [
    | inl (entry, told, wait) ↦ inl (l.entry ∙ entry, l.told ∙ told, wait)
    | inr (gone, told, over) ↦ inr (l.entry ∙ gone, l.told ∙ told, over)
  ];
}

pub send-Counts :
    (group_id handle before n ended : ℕ) (a : Assembled) (u w : Udt)
    → Counts group_id handle before (sending n) ended u
    → suc n < minus_one
    → send_slice handle a u ≡ some w
    → Counts group_id handle before (sending (suc n)) ended w
unfolding MayWait IsOver EndsTrue count_at
send-Counts group_id handle before n ended a u w c small is =
    let same = send_slice-SameAccount handle a u w is in
    let d = LeavesAlone-Counts group_id handle before (sending n) ended u w c (record {
      entry = ap (find group_id) same.entries;
      group = ap (find handle) same.groups;
      told = ap (calls group_id) same.sent;
      callback = same.callback;
    }) in
    record {
      callback = d.callback;
      group = d.group;
      bounded = omega (arith, d.bounded);
      small = small;
      equal = tt;
      entry = d.entry;
    }
