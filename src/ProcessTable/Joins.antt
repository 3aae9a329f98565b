-- ===== src/ProcessTable/Joins.antt =====
-- A parent that joins a child, and the child's exit, in either order.
use os_project2_nach_os.Base.{
  ℕ, ◌^◌, ◌-◌, ◌<◌, ◌≡◌, ◌≢◌, refl, sym, true, false, none, some, ok, err, wild_access, leb, ◌==◌,
  arith,
}
use os_project2_nach_os.BitMap.Sets.{Sets}
use os_project2_nach_os.ProcessTable.{
  Pcb, PTable, dec_num_wait, join_release, destroyed, is_exist, leave, exit_update, resume_exit,
  join_update, resume_join, ended, waits_to_exit,
}
use os_project2_nach_os.ProcessTable.Slots.{
  Slot, put_pcb, with_pcb-put_pcb, put_self, put_other, child_of, IsChild, joined, released, exists,
  removes,
}

module _ (t : PTable) (parent id n code : ℕ) (q : Pcb) (c : IsChild t parent id n code q) where
  joins : join_update id parent t ≡ ok (some (put_pcb t id (joined parent n code)))
  unfolding join_update
  joins =
      let self : (parent == parent) ≡ true = ground arith in
      rw (small, c.child, self, with_pcb-put_pcb t id _ (joined parent n code) c.child) refl
    where
      small : leb t.psize id ≡ false
      small = ground (arith, c.in_size)

  still_waits : resume_join id (put_pcb t id (joined parent n code)) ≡ ok none
  unfolding resume_join
  still_waits = rw (put_self t id _ (joined parent n code) c.child) refl

-- The first half of ExitUpdate: the code is kept, and the parent counts one wait less.
abbrev left : PTable → ℕ → ℕ → ℕ → Pcb → Pcb → PTable
left t parent id ec p q =
    put_pcb (put_pcb t id (record p { exit_code = ec })) parent (dec_num_wait q)

module _ (t : PTable) (parent id ec : ℕ) (p q : Pcb) (ne : id ≢ parent) (h : Slot t id p)
    (g : Slot t parent q) where
  left_parent : Slot (put_pcb t id (record p { exit_code = ec })) parent q
  left_parent = put_other t id parent (record p { exit_code = ec }) q ne g

  left_self : Slot (left t parent id ec p q) id (record p { exit_code = ec })
  left_self =
      put_other (put_pcb t id (record p { exit_code = ec })) parent id (dec_num_wait q)
        (record p { exit_code = ec }) (λ e. ne (sym e))
        (put_self t id p (record p { exit_code = ec }) h)

releases :
    (t : PTable) (parent id n ec : ℕ)
    → Slot t id (joined parent n ec)
    → join_release id t ≡ ok (put_pcb t id (released parent n ec))
releases t parent id n ec h =
    rw (h, with_pcb-put_pcb t id (joined parent n ec) (released parent n ec) h) refl

module _ (t : PTable) (parent id n ec code : ℕ) (q : Pcb) (ne : id ≢ parent)
    (h : Slot t id (joined parent n code)) (g : Slot t parent q) where
  leave-joined :
      leave ec id t
      ≡ ok (
          waits_to_exit
            (put_pcb (left t parent id ec (joined parent n code) q) id (released parent n ec)))
  unfolding leave
  leave-joined =
      let p = joined parent n code in
      rw
        (
          h,
          with_pcb-put_pcb t id p (record p { exit_code = ec }) h,
          left_parent t parent id ec p q ne h g,
          with_pcb-put_pcb (put_pcb t id (record p { exit_code = ec })) parent q (dec_num_wait q)
              (left_parent t parent id ec p q ne h g),
          left_self t parent id ec p q ne h g,
          releases (left t parent id ec p q) parent id n ec (left_self t parent id ec p q ne h g),
        )
        refl

module _ (t : PTable) (parent id n ec code : ℕ) (q : Pcb) (c : IsChild t parent id n code q) where
  abbrev waiting : PTable
  waiting = put_pcb t id (joined parent n code)

  abbrev leaving : PTable
  leaving = put_pcb (left waiting parent id ec (joined parent n code) q) id (released parent n ec)

  waiting-Slot : Slot waiting id (joined parent n code)
  waiting-Slot = put_self t id _ (joined parent n code) c.child

  exits : exit_update ec id waiting ≡ ok (waits_to_exit leaving)
  unfolding exit_update
  exits =
      let main : (id == 0) ≡ false = ground (arith, c.not_main) in
      rw
        (
          main,
          exists waiting parent id c.valid c.in_use c.in_map c.low,
          leave-joined waiting parent id n ec code q c.other waiting-Slot
              (put_other t id parent (joined parent n code) q c.other c.parent_there),
        )
        refl

  leaving-Slot : Slot leaving id (released parent n ec)
  leaving-Slot =
      put_self (left waiting parent id ec (joined parent n code) q) id _ (released parent n ec) (
        left_self waiting parent id ec (joined parent n code) q c.other waiting-Slot
          (put_other t id parent (joined parent n code) q c.other c.parent_there))

  still_leaves : resume_exit id leaving ≡ ok none
  unfolding resume_exit
  still_leaves = rw leaving-Slot refl

-- A parent joins a child, and the child then exits with 0: JoinUpdate waits until the child's
-- ExitUpdate has come to its own wait, and ExitUpdate waits until JoinUpdate has gone on. Then
-- JoinUpdate answers 0, and the child's slot is free, with every other slot as it was.
pub join-exit :
    (t : PTable) (parent id n code : ℕ) (q : Pcb)
    → IsChild t parent id n code q
    → (t₁ : PTable) × (t₂ : PTable) × (t₃ : PTable) × (t₄ : PTable) × (join_update id parent t
        ≡ ok (some t₁))
      × (resume_join id t₁ ≡ ok none)
      × (exit_update 0 id t₁ ≡ ok (waits_to_exit t₂))
      × (resume_exit id t₂ ≡ ok none)
      × (resume_join id t₂ ≡ ok (some (0, t₃)))
      × (resume_exit id t₃ ≡ ok (some t₄))
      × Sets t.bm id false t₄.bm
unfolding resume_join resume_exit
join-exit t parent id n code q c =
    let t₂ = leaving t parent id n 0 code q c in
    let h = leaving-Slot t parent id n 0 code q c in
    let p₃ = record (released parent n 0) { joinsem = some 0; exitsem = some 1 } in
    let p₄ = record p₃ { exitsem = some 0 } in
    let t₃ = put_pcb t₂ id p₃ in
    let h₃ = put_self t₂ id (released parent n 0) p₃ h in
    let (bm, e, s) =
      removes (put_pcb t₃ id p₄) parent id c.valid c.in_use c.in_map c.low p₄
        (put_self t₃ id p₃ p₄ h₃) in
    (
      waiting t parent id n 0 code q c,
      t₂,
      t₃,
      put_pcb (record (put_pcb t₃ id p₄) { bm = bm }) id (destroyed p₄),
      joins t parent id n code q c,
      still_waits t parent id n code q c,
      exits t parent id n 0 code q c,
      still_leaves t parent id n 0 code q c,
      rw (h, with_pcb-put_pcb t₂ id (released parent n 0) p₃ h) refl,
      rw (h₃, with_pcb-put_pcb t₃ id p₃ p₄ h₃, e) refl,
      s,
    )

-- A parent joins a child, and the child then exits with another code: JoinUpdate answers -1, and
-- the child still waits in ExitUpdate, with its slot in use.
pub join_exit_failed :
    (t : PTable) (parent id n code ec : ℕ) (q : Pcb)
    → IsChild t parent id n code q
    → 0 < ec
    → (t₁ : PTable) × (t₂ : PTable) × (t₃ : PTable) × (join_update id parent t ≡ ok (some t₁))
      × (exit_update ec id t₁ ≡ ok (waits_to_exit t₂))
      × (resume_join id t₂ ≡ ok (some (2 ^ 32 - 1, t₃)))
      × (resume_exit id t₃ ≡ ok none)
      × (is_exist t₃ id ≡ ok true)
unfolding resume_join resume_exit
join_exit_failed t parent id n code ec q c pos =
    let t₂ = leaving t parent id n ec code q c in
    let h = leaving-Slot t parent id n ec code q c in
    let p₃ = record (released parent n ec) { joinsem = some 0 } in
    let t₃ = put_pcb t₂ id p₃ in
    let failed : (ec == 0) ≡ false = ground arith in
    (
      waiting t parent id n ec code q c,
      t₂,
      t₃,
      joins t parent id n code q c,
      exits t parent id n ec code q c,
      rw (h, failed, with_pcb-put_pcb t₂ id (released parent n ec) p₃ h) refl,
      rw (put_self t₂ id (released parent n ec) p₃ h) refl,
      exists t₃ parent id c.valid c.in_use c.in_map c.low,
    )

-- A child exits before its parent joins it: its slot is free, but the pointer to the deleted block
-- stays, so that JoinUpdate by the parent waits on a deleted semaphore.
pub exit-join :
    (t : PTable) (parent id n code ec : ℕ) (q : Pcb)
    → IsChild t parent id n code q
    → (t₁ : PTable) × (exit_update ec id t ≡ ok (ended t₁))
      × Sets t.bm id false t₁.bm
      × (join_update id parent t₁ ≡ err wild_access)
unfolding exit_update leave join_update
exit-join t parent id n code ec q c =
    let p = child_of parent n code in
    let main : (id == 0) ≡ false = ground (arith, c.not_main) in
    let self : (parent == parent) ≡ true = ground arith in
    let small : leb t.psize id ≡ false = ground (arith, c.in_size) in
    let h = left_self t parent id ec p q c.other c.child c.parent_there in
    let g = left_parent t parent id ec p q c.other c.child c.parent_there in
    let (bm, e, s) =
      removes (left t parent id ec p q) parent id c.valid c.in_use c.in_map c.low
        (child_of parent n ec) h in
    let gone =
      put_pcb (record (left t parent id ec p q) { bm = bm }) id
        (destroyed (child_of parent n ec)) in
    (
      gone,
      rw
          (
            main,
            exists t parent id c.valid c.in_use c.in_map c.low,
            c.child,
            with_pcb-put_pcb t id p (child_of parent n ec) c.child,
            g,
            with_pcb-put_pcb (put_pcb t id (child_of parent n ec)) parent q (dec_num_wait q) g,
            h,
            e,
          )
          refl,
      s,
      rw
          (
            small,
            put_self (record (left t parent id ec p q) { bm = bm }) id (child_of parent n ec)
                (destroyed (child_of parent n ec)) h,
            self,
          )
          refl,
    )
