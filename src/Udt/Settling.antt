-- ===== src/Udt/Settling.antt =====
-- isu-net/src/udt.cpp: what each operation does to the account of a group that is being sent.
use isu_net.Base.{
  ==_false, ==_iff, ==_refl, Bool, Bool-cases, [], add_size, ap, arith, erase, false, find,
  find-erase, find-put_self, if◌then◌else◌, inl, inr, not, put, refl, some, some-injective, subst,
  suc, sym, true, ℕ, ◌++◌, ◌<◌, ◌==◌, ◌||◌, ◌∙◌, ◌∷◌, ◌≡◌, ◌≢◌,
}
use isu_net.Udt.{UdtGroup, Udt, complete, erase_group}
use isu_net.Udt.Send.{set_count, all_geted}
use isu_net.Udt.Ticks.{Phase, sending, counted, compared, returned, slices_sent}
use isu_net.Udt.Counting.{
  Counts, MayWait, IsOver, EndsTrue, count_at, calls-append, IsOver-slices_sent, tick-IsOver,
  tick-MayWait, tick-EndsTrue,
}

-- `_erase_group` for a group that is being sent, with a callback.
erase_group_lem :
    (group_id handle : ℕ) (tick : Bool) (g : UdtGroup) (u : Udt)
    → find group_id u.sending_groups ≡ some handle
    → find handle u.groups ≡ some g
    → u.has_send_callback ≡ true
    → let geted = if tick then add_size g.geted 1 else g.geted in
      let groups = put handle (record g { geted = geted }) u.groups in
      erase_group group_id tick u
      ≡ some (
          if not tick || geted == g.count
          then record u {
            groups = groups;
            sent = u.sent ++ group_id ∷ [];
            sending_groups = erase group_id u.sending_groups;
          }
          else record u { groups = groups })
unfolding erase_group complete
erase_group_lem group_id handle tick g u entry there callback =
    elim (Bool-cases (not tick || (if tick then add_size g.geted 1 else g.geted) == g.count)) [
      | inl ended ↦ rw (erase_group, entry) (rw there (rw ended (rw callback refl)))
      | inr more ↦ rw (erase_group, entry) (rw there (rw more refl))
    ]

module _ (group_id handle before : ℕ) where
  pub tick-Counts :
      (p : Phase) (ended : ℕ) (u u1 : Udt)
      → Counts group_id handle before p ended u
      → ended < slices_sent p
      → erase_group group_id true u ≡ some u1
      → Counts group_id handle before p (suc ended) u1
  tick-Counts p ended u u1 c less is = elim c.entry [
    | inr (gone, told, over) ↦ absurd (omega (arith, IsOver-slices_sent p ended over))
    | inl (entry, told, wait) ↦
        let (g, there, geted, count) = c.group in
        let next : add_size g.geted 1 ≡ suc ended = omega (arith, geted, c.small) in
        let result = sym (erase_group_lem group_id handle true g u entry there c.callback) ∙ is in
        elim (Bool-cases (add_size g.geted 1 == g.count)) [
          | inl all ↦
              let done = some-injective (rw all at result) in
              let last : suc ended ≡ count_at p =
                sym next ∙ (==_iff (add_size g.geted 1) g.count).0 all ∙ count in
              subst (Counts group_id handle before p (suc ended)) done (record {
                callback = c.callback;
                group = (
                  record g { geted = add_size g.geted 1 },
                  find-put_self handle _ u.groups,
                  next,
                  count,
                );
                bounded = omega arith;
                small = c.small;
                equal = tick-EndsTrue p ended c.equal less;
                entry = inr (
                  rw (find-erase group_id group_id u.sending_groups, ==_refl group_id) refl,
                  calls-append group_id u.sent ∙ ap suc told,
                  tick-IsOver p ended wait less c.small last,
                );
              })
          | inr more ↦
              let done = some-injective (rw more at result) in
              let left : suc ended ≢ count_at p =
                λ e. ==_false (add_size g.geted 1) g.count more (next ∙ e ∙ sym count) in
              subst (Counts group_id handle before p (suc ended)) done (record {
                callback = c.callback;
                group = (
                  record g { geted = add_size g.geted 1 },
                  find-put_self handle _ u.groups,
                  next,
                  count,
                );
                bounded = omega arith;
                small = c.small;
                equal = tick-EndsTrue p ended c.equal less;
                entry = inl (entry, told, tick-MayWait p ended wait less left);
              })
        ]
  ]

  -- The count is set when all slices are sent.
  pub count-Counts :
      (n ended : ℕ) (u u1 : Udt)
      → Counts group_id handle before (sending n) ended u
      → set_count handle n u ≡ some u1
      → Counts group_id handle before (counted n) ended u1
  unfolding set_count MayWait IsOver EndsTrue count_at
  count-Counts n ended u u1 c is = elim c.entry [
    | inr (gone, told, over) ↦ absurd over
    | inl (entry, told, wait) ↦
        let (g, there, geted, count) = c.group in
        subst (Counts group_id handle before (counted n) ended) (some-injective (rw there at is))
          (record {
            callback = c.callback;
            group = (record g { count = n }, find-put_self handle _ u.groups, geted, refl);
            bounded = c.bounded;
            small = c.small;
            equal = tt;
            entry = inl (entry, told, tt);
          })
  ]

  pub compare-Counts :
      (n ended : ℕ) (equal : Bool) (u : Udt)
      → Counts group_id handle before (counted n) ended u
      → all_geted handle u ≡ some equal
      → Counts group_id handle before (compared n equal) ended u
  unfolding all_geted MayWait IsOver EndsTrue count_at
  compare-Counts n ended true u c is =
      let (g, there, geted, count) = c.group in
      let same : ended ≡ n =
        sym geted ∙ (==_iff g.geted g.count).0 (some-injective (rw there at is)) ∙ count in
      record {
        callback = c.callback;
        group = c.group;
        bounded = c.bounded;
        small = c.small;
        equal = same;
        entry = elim c.entry [
          | inl (entry, told, wait) ↦ inl (entry, told, inl refl)
          | inr over ↦ inr over
        ];
      }
  compare-Counts n ended false u c is =
      let (g, there, geted, count) = c.group in
      let differ = ==_false g.geted g.count (some-injective (rw there at is)) in
      record {
        callback = c.callback;
        group = c.group;
        bounded = c.bounded;
        small = c.small;
        equal = tt;
        entry = elim c.entry [
          | inl (entry, told, wait) ↦
              inl (entry, told, inr (omega (arith, c.bounded, differ, geted, count)))
          | inr over ↦ inr over
        ];
      }

  pub return-Counts :
      (n ended : ℕ) (equal : Bool) (u u1 : Udt)
      → Counts group_id handle before (compared n equal) ended u
      → (if equal then erase_group group_id false u else some u) ≡ some u1
      → Counts group_id handle before (returned n) ended u1
  unfolding MayWait IsOver EndsTrue count_at erase_group
  return-Counts n ended false u u1 c is =
      subst (Counts group_id handle before (returned n) ended) (some-injective is) (record {
        callback = c.callback;
        group = c.group;
        bounded = c.bounded;
        small = c.small;
        equal = tt;
        entry = elim c.entry [
          | inr over ↦ inr over
          | inl (entry, told, wait) ↦ elim wait [
            | inl never ↦ absurd (cc)
            | inr less ↦ inl (entry, told, less)
          ]
        ];
      })
  return-Counts n ended true u u1 c is = elim c.entry [
    | inr (gone, told, over) ↦
        subst (Counts group_id handle before (returned n) ended)
          (some-injective (rw (erase_group, gone) at is))
          (record {
            callback = c.callback;
            group = c.group;
            bounded = c.bounded;
            small = c.small;
            equal = tt;
            entry = inr (gone, told, over);
          })
    | inl (entry, told, wait) ↦
        let (g, there, geted, count) = c.group in
        let result = sym (erase_group_lem group_id handle false g u entry there c.callback) ∙ is in
        subst (Counts group_id handle before (returned n) ended) (some-injective result) (record {
          callback = c.callback;
          group = (g, find-put_self handle _ u.groups, geted, count);
          bounded = c.bounded;
          small = c.small;
          equal = tt;
          entry = inr (
            rw (find-erase group_id group_id u.sending_groups, ==_refl group_id) refl,
            calls-append group_id u.sent ∙ ap suc told,
            c.equal,
          );
        })
  ]
