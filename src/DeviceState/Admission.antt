-- ===== src/DeviceState/Admission.antt =====
-- Creation keeps the invariant of the device state.
use virtio_accel.Prelude.{
  ℕ, ◌+◌, ◌<◌, ◌≡◌, refl, [], arith, inl, inr, Result, ok, Result-cases, Bool-cases, add_u32, leb,
}
use virtio_accel.ObjectTable.{Reserve, put, len, insert_prepared}
use virtio_accel.ObjectTable.Preserve.{HasRoom, insert_prepared-IsValid}
use virtio_accel.ObjectTable.Insert.{insert_prepared-Inserted}
use virtio_accel.DeviceState.Records.{
  u64_mod, saturating_add, new_slot, default_counts, BufferDesc, BufferInfo, ContextRecord,
  BufferRecord, ProgramRecord, QueueRecord,
}
use virtio_accel.DeviceState.Graph.{DeviceState}
use virtio_accel.DeviceState.Counted.{Counted-add, Counted-new_owner}
use virtio_accel.DeviceState.Referenced.{Referenced-insert}
use virtio_accel.DeviceState.Settled.{settled, AllOk-insert}
use virtio_accel.DeviceState.Create.{
  reserve, create_context_with, prepare_buffer, create_buffer_with, prepare_program,
  create_program_with, prepare_queue, create_queue_with,
}
use virtio_accel.DeviceState.Inv.{
  Inv, uses_buffer, uses_program, uses_queue, children_sum, BuffersInv, ProgramsInv, QueuesInv,
  backing_bytes, backing_excess,
}
use virtio_accel.DeviceState.Rebase.{rebase_buffers, rebase_programs, rebase_queues, rebase_events}
use virtio_accel.DeviceState.Recount.{
  with_children, recount_buffers, recount_programs, recount_queues,
}
use virtio_accel.DeviceState.Departure.{backing_fits}
use virtio_accel.DeviceState.Admit.{
  reserve-HasRoom, prepare_queue-Admits, prepare_program-Admits, prepare_buffer-Admits,
  prepare_buffer-made,
}

-- The backing bytes that a provider reports are a `u64`.
abbrev pub SizesFit :
    {C B Fault : Type 0} → (C → BufferDesc → Result Fault (B × BufferInfo)) → Type 0
SizesFit {C} {B} create =
    (k : C) (desc : BufferDesc) (made : B × BufferInfo)
    → create k desc ≡ ok made
    → made.1.allocation_bytes < u64_mod

module _ {C B P Q E Fault : Type 0} where
  pub create_queue_with-Inv :
      (s : DeviceState C B P Q E) (room : Reserve) (id : ℕ) (create : C → Result Fault Q)
      → Inv s []
      → Inv (create_queue_with s room id create).0 []
  unfolding create_queue_with new_slot settled
  create_queue_with-Inv s room id create v = elim (Result-cases (prepare_queue s room id create)) [
    | inr (e, bad) ↦ rw (bad, create_queue_with) v
    | inl ((c, made), prepared) ↦
        let (a, space) = prepare_queue-Admits s room id create c made prepared in
        let x : QueueRecord Q = record {
          resource = new_slot made;
          context_id = id;
          in_flight = 0;
        } in
        let i = insert_prepared-Inserted s.queues x v.queues.valid space in
        let n : ℕ = add_u32 c.children.queues 1 in
        let up : n ≡ c.children.queues + 1 = ground (arith, a.below, v.limits.queues) in
        let built : QueuesInv
            (put s.contexts id (with_children c (record (c.children) { queues = n })))
            (insert_prepared s.queues x).0 s.events [] =
          record {
            valid = insert_prepared-IsValid s.queues x v.queues.valid space;
            kids =
                Counted-add (λ c. c.children.queues) (λ q. q.context_id) s.contexts id c
                  (with_children c (record (c.children) { queues = n })) s.queues _ _ x [] a.found
                  up (ground (arith, a.below, v.limits.queues)) refl i v.queues.kids;
            refs =
                Referenced-insert _ _ uses_queue s.queues _ _ x s.events i refl v.events.valid
                  v.queues.refs;
            slots =
                AllOk-insert (λ q. settled q.resource q.in_flight) s.queues _ _ x i refl
                  v.queues.slots;
          } in
        rw (prepared, create_queue_with)
          (recount_queues s id c n (insert_prepared s.queues x).0 a.found (inl a.held) built v)
  ]

  pub create_program_with-Inv :
      (s : DeviceState C B P Q E) (room : Reserve) (id artifact resident : ℕ)
      (create : C → Result Fault P)
      → Inv s []
      → Inv (create_program_with s room id artifact resident create).0 []
  unfolding create_program_with new_slot settled
  create_program_with-Inv s room id artifact resident create v =
      elim (Result-cases (prepare_program s room id artifact resident create)) [
        | inr (e, bad) ↦ rw (bad, create_program_with) v
        | inl ((c, made), prepared) ↦
            let (a, space, fits) =
              prepare_program-Admits s room id artifact resident create c made prepared in
            let x : ProgramRecord P = record {
              resource = new_slot made;
              context_id = id;
              resident_bytes = resident;
              in_flight = 0;
            } in
            let i = insert_prepared-Inserted s.programs x v.programs.valid space in
            let n : ℕ = add_u32 c.children.programs 1 in
            let up : n ≡ c.children.programs + 1 = ground (arith, a.below, v.limits.programs) in
            let retained : ℕ = saturating_add s.retained.program_resident resident in
            let exact : retained ≡ s.retained.program_resident + resident =
              ground (arith, fits, v.limits.resident) in
            let built : ProgramsInv
                (put s.contexts id (with_children c (record (c.children) { programs = n })))
                (insert_prepared s.programs x).0 s.events retained
                s.policy.max_program_resident_bytes [] =
              record {
                valid = insert_prepared-IsValid s.programs x v.programs.valid space;
                kids =
                    Counted-add (λ c. c.children.programs) (λ p. p.context_id) s.contexts id c
                      (with_children c (record (c.children) { programs = n })) s.programs _ _ x []
                      a.found up (ground (arith, a.below, v.limits.programs)) refl i
                      v.programs.kids;
                refs =
                    Referenced-insert _ _ uses_program s.programs _ _ x s.events i refl
                      v.events.valid v.programs.refs;
                slots =
                    AllOk-insert (λ p. settled p.resource p.in_flight) s.programs _ _ x i refl
                      v.programs.slots;
                charged =
                    omega (arith, exact, i.totals (λ p. p.resident_bytes), v.programs.charged);
                within = omega (arith, fits);
              } in
            rw (prepared, create_program_with)
              (recount_programs s id c n (insert_prepared s.programs x).0 retained a.found
                (inl a.held) built v)
      ]

  -- The provider's buffer is kept even where its outcome asks for a cleanup.
  pub create_buffer_with-Inv :
      (s : DeviceState C B P Q E) (room : Reserve) (id : ℕ) (desc : BufferDesc)
      (create : C → BufferDesc → Result Fault (B × BufferInfo))
      → SizesFit create
      → Inv s []
      → Inv (create_buffer_with s room id desc create).0 []
  unfolding create_buffer_with new_slot settled
  create_buffer_with-Inv s room id desc create sizes v =
      elim (Result-cases (prepare_buffer s room id desc create)) [
        | inr (e, bad) ↦ rw (bad, create_buffer_with) v
        | inl ((c, made), prepared) ↦
            let (a, space) = prepare_buffer-Admits s room id desc create c made prepared in
            let (k, returned) = prepare_buffer-made s room id desc create c made prepared in
            let small : made.1.allocation_bytes < u64_mod = sizes k desc made returned in
            let x : BufferRecord B = record {
              resource = new_slot made.0;
              context_id = id;
              info = made.1;
              in_flight = 0;
            } in
            let i = insert_prepared-Inserted s.buffers x v.buffers.valid space in
            let n : ℕ = add_u32 c.children.buffers 1 in
            let up : n ≡ c.children.buffers + 1 = ground (arith, a.below, v.limits.buffers) in
            let retained : ℕ = saturating_add s.retained.buffer_backing made.1.allocation_bytes in
            let exact : retained ≡ s.retained.buffer_backing + made.1.allocation_bytes = ground (
              arith,
              backing_fits s.buffers s.retained.buffer_backing v.buffers.valid v.buffers.charged
                  v.buffers.words made.1.allocation_bytes small,
            ) in
            let built : BuffersInv
                (put s.contexts id (with_children c (record (c.children) { buffers = n })))
                (insert_prepared s.buffers x).0 s.events retained [] =
              record {
                valid = insert_prepared-IsValid s.buffers x v.buffers.valid space;
                kids =
                    Counted-add (λ c. c.children.buffers) (λ b. b.context_id) s.contexts id c
                      (with_children c (record (c.children) { buffers = n })) s.buffers _ _ x []
                      a.found up (ground (arith, a.below, v.limits.buffers)) refl i v.buffers.kids;
                refs =
                    Referenced-insert _ _ uses_buffer s.buffers _ _ x s.events i refl v.events.valid
                      v.buffers.refs;
                slots =
                    AllOk-insert (λ b. settled b.resource b.in_flight) s.buffers _ _ x i refl
                      v.buffers.slots;
                charged = omega (arith, exact, i.totals backing_bytes, v.buffers.charged);
                words = omega (arith, i.totals backing_excess, small, v.buffers.words);
              } in
            rw (prepared, create_buffer_with)
              (recount_buffers s id c n (insert_prepared s.buffers x).0 retained a.found
                (inl a.held) built v)
      ]

  pub create_context_with-Inv :
      (s : DeviceState C B P Q E) (room : Reserve) (create : Result Fault C)
      → Inv s []
      → Inv (create_context_with s room create).0 []
  unfolding create_context_with new_slot settled default_counts
  create_context_with-Inv s room create v =
      elim (Bool-cases (leb s.limits.max_contexts (len s.contexts))) [
        | inl many ↦ rw (many, create_context_with) v
        | inr few ↦ elim (Result-cases (reserve s.contexts room)) [
          | inr (e, bad) ↦ rw (few, bad, create_context_with) v
          | inl (_, space) ↦ elim (Result-cases create) [
            | inr (e, bad) ↦ rw (few, space, bad, create_context_with) v
            | inl (resource, made) ↦
                let x : ContextRecord C = record {
                  resource = new_slot resource;
                  children = default_counts;
                } in
                let roomy : HasRoom s.contexts = reserve-HasRoom s.contexts room space in
                let i = insert_prepared-Inserted s.contexts x v.contexts.valid roomy in
                rw (few, space, made, create_context_with)
                  (record {
                    limits = v.limits;
                    contexts = record {
                      valid = insert_prepared-IsValid s.contexts x v.contexts.valid roomy;
                      slots =
                          AllOk-insert (λ c. settled c.resource (children_sum c.children))
                            s.contexts _ _ x i refl v.contexts.slots;
                    };
                    buffers =
                        rebase_buffers s.contexts _ s.events s.events [] [] s.buffers _
                          (Counted-new_owner _ _ s.contexts _ _ x s.buffers i refl v.buffers.valid
                            v.buffers.kids)
                          v.buffers.refs v.buffers;
                    programs =
                        rebase_programs s.contexts _ s.events s.events [] [] s.programs _ _
                          (Counted-new_owner _ _ s.contexts _ _ x s.programs i refl v.programs.valid
                            v.programs.kids)
                          v.programs.refs v.programs;
                    queues =
                        rebase_queues s.contexts _ s.events s.events [] [] s.queues
                          (Counted-new_owner _ _ s.contexts _ _ x s.queues i refl v.queues.valid
                            v.queues.kids)
                          v.queues.refs v.queues;
                    events =
                        rebase_events s.contexts _ s.events [] []
                          (Counted-new_owner _ _ s.contexts _ _ x s.events i refl v.events.valid
                            v.events.kids)
                          v.events;
                  })
          ]
        ]
      ]
