-- ===== src/DeviceState/CommitCharged.antt =====
-- Committing the release of a program or a buffer keeps the invariant of the device state: its charge
-- goes with it.
use virtio_accel.Prelude.{
  ℕ, ◌+◌, ◌≡◌, refl, true, [], arith, inl, inr, ok, Result-cases, Bool-cases, sub_u32,
}
use virtio_accel.ObjectTable.{get, put, remove}
use virtio_accel.ObjectTable.Laws.{remove-ok, remove-IsValid, total-remove}
use virtio_accel.DeviceState.Records.{sub_u128, is_releasing, BufferRecord, ProgramRecord}
use virtio_accel.DeviceState.Graph.{DeviceState, find}
use virtio_accel.DeviceState.Counted.{Counted-leave, Counted-forget, Counted-pos}
use virtio_accel.DeviceState.Referenced.{Referenced-remove}
use virtio_accel.DeviceState.Settled.{settled, AllOk-remove, AllOk-get}
use virtio_accel.DeviceState.Release.{
  ensure_releasing, commit_buffer_release, commit_program_release,
}
use virtio_accel.DeviceState.Inv.{
  Inv, uses_buffer, uses_program, BuffersInv, ProgramsInv, backing_bytes, backing_excess,
}
use virtio_accel.DeviceState.Recount.{with_children, recount_buffers, recount_programs}
use virtio_accel.DeviceState.Departure.{
  releasing_unused, sub_u32_lem, sub_u128_lem, backing_fits, owner_there,
}

module _ {C B P Q E : Type 0} where
  -- A program that is being released goes.
  pub commit_program-Inv :
      (s : DeviceState C B P Q E) (id : ℕ) (r : ProgramRecord P)
      → get s.programs id ≡ ok r
      → is_releasing r.resource.release ≡ true
      → Inv s []
      → ((commit_program_release s id).1 ≡ ok tt) × Inv (commit_program_release s id).0 []
  unfolding commit_program_release find ensure_releasing
  commit_program-Inv s id r found going v =
      let (c, owner) =
        owner_there (λ c. c.children.programs) (λ p. p.context_id) s.contexts s.programs id r
          v.programs.kids found in
      let unused : r.in_flight ≡ 0 =
        releasing_unused r.resource r.in_flight
          (AllOk-get (λ p. settled p.resource p.in_flight) s.programs id r v.programs.slots found)
          going in
      let left =
        Counted-leave (λ c. c.children.programs) (λ p. p.context_id) s.contexts s.programs id r []
          found v.programs.kids in
      let (positive, fits) =
        Counted-pos (λ c. c.children.programs) (λ p. p.context_id) s.contexts r.context_id c
          (remove s.programs id).0 [] owner left in
      let part = total-remove (λ p. p.resident_bytes) s.programs id r found in
      let less : sub_u128 s.retained.program_resident r.resident_bytes + r.resident_bytes
          ≡ s.retained.program_resident =
        sub_u128_lem s.retained.program_resident r.resident_bytes
          (omega (arith, part, v.programs.charged))
          (omega (arith, v.programs.within, v.limits.resident)) in
      let n : ℕ = sub_u32 c.children.programs 1 in
      let down : n + 1 ≡ c.children.programs = sub_u32_lem c.children.programs positive fits in
      let built : ProgramsInv
          (put s.contexts r.context_id (with_children c (record (c.children) { programs = n })))
          (remove s.programs id).0 s.events (sub_u128 s.retained.program_resident r.resident_bytes)
          s.policy.max_program_resident_bytes [] =
        record {
          charged = omega (arith, less, part, v.programs.charged);
          within = omega (arith, less, v.programs.within);
          valid = remove-IsValid s.programs id r v.programs.valid found;
          kids =
              Counted-forget (λ c. c.children.programs) (λ p. p.context_id) s.contexts r.context_id
                c (with_children c (record (c.children) { programs = n })) (remove s.programs id).0
                [] owner down left;
          refs =
              Referenced-remove _ _ uses_program s.programs id r s.events found unused
                v.programs.refs;
          slots = AllOk-remove _ s.programs id r found v.programs.slots;
        } in
      rw
        (
          found,
          going,
          remove-ok s.programs id r found,
          owner,
          commit_program_release,
          find,
          ensure_releasing,
        )
        (
          refl,
          recount_programs s r.context_id c n (remove s.programs id).0
              (sub_u128 s.retained.program_resident r.resident_bytes) owner
              (inr (omega (arith, down))) built v,
        )

  pub commit_program_release-Inv :
      (s : DeviceState C B P Q E) (id : ℕ) → Inv s [] → Inv (commit_program_release s id).0 []
  unfolding commit_program_release find ensure_releasing
  commit_program_release-Inv s id v = elim (Result-cases (get s.programs id)) [
    | inr (e, bad) ↦ rw (bad, commit_program_release, find) v
    | inl (r, found) ↦ elim (Bool-cases (is_releasing r.resource.release)) [
      | inr kept ↦ rw (found, kept, commit_program_release, find, ensure_releasing) v
      | inl going ↦ (commit_program-Inv s id r found going v).1
    ]
  ]

  -- A buffer that is being released goes.
  pub commit_buffer-Inv :
      (s : DeviceState C B P Q E) (id : ℕ) (r : BufferRecord B)
      → get s.buffers id ≡ ok r
      → is_releasing r.resource.release ≡ true
      → Inv s []
      → ((commit_buffer_release s id).1 ≡ ok tt) × Inv (commit_buffer_release s id).0 []
  unfolding commit_buffer_release find ensure_releasing
  commit_buffer-Inv s id r found going v =
      let (c, owner) =
        owner_there (λ c. c.children.buffers) (λ b. b.context_id) s.contexts s.buffers id r
          v.buffers.kids found in
      let unused : r.in_flight ≡ 0 =
        releasing_unused r.resource r.in_flight
          (AllOk-get (λ b. settled b.resource b.in_flight) s.buffers id r v.buffers.slots found)
          going in
      let left =
        Counted-leave (λ c. c.children.buffers) (λ b. b.context_id) s.contexts s.buffers id r []
          found v.buffers.kids in
      let (positive, fits) =
        Counted-pos (λ c. c.children.buffers) (λ b. b.context_id) s.contexts r.context_id c
          (remove s.buffers id).0 [] owner left in
      let part = total-remove backing_bytes s.buffers id r found in
      let less : sub_u128 s.retained.buffer_backing r.info.allocation_bytes
            + r.info.allocation_bytes
          ≡ s.retained.buffer_backing =
        sub_u128_lem s.retained.buffer_backing r.info.allocation_bytes
          (omega (arith, part, v.buffers.charged))
          (omega (
            arith,
            backing_fits s.buffers s.retained.buffer_backing v.buffers.valid v.buffers.charged
                v.buffers.words 0 (omega arith),
          )) in
      let n : ℕ = sub_u32 c.children.buffers 1 in
      let down : n + 1 ≡ c.children.buffers = sub_u32_lem c.children.buffers positive fits in
      let built : BuffersInv
          (put s.contexts r.context_id (with_children c (record (c.children) { buffers = n })))
          (remove s.buffers id).0 s.events
          (sub_u128 s.retained.buffer_backing r.info.allocation_bytes) [] =
        record {
          charged = omega (arith, less, part, v.buffers.charged);
          words = omega (arith, total-remove backing_excess s.buffers id r found, v.buffers.words);
          valid = remove-IsValid s.buffers id r v.buffers.valid found;
          kids =
              Counted-forget (λ c. c.children.buffers) (λ b. b.context_id) s.contexts r.context_id c
                (with_children c (record (c.children) { buffers = n })) (remove s.buffers id).0 []
                owner down left;
          refs =
              Referenced-remove _ _ uses_buffer s.buffers id r s.events found unused v.buffers.refs;
          slots = AllOk-remove _ s.buffers id r found v.buffers.slots;
        } in
      rw
        (
          found,
          going,
          remove-ok s.buffers id r found,
          owner,
          commit_buffer_release,
          find,
          ensure_releasing,
        )
        (
          refl,
          recount_buffers s r.context_id c n (remove s.buffers id).0
              (sub_u128 s.retained.buffer_backing r.info.allocation_bytes) owner
              (inr (omega (arith, down))) built v,
        )

  pub commit_buffer_release-Inv :
      (s : DeviceState C B P Q E) (id : ℕ) → Inv s [] → Inv (commit_buffer_release s id).0 []
  unfolding commit_buffer_release find ensure_releasing
  commit_buffer_release-Inv s id v = elim (Result-cases (get s.buffers id)) [
    | inr (e, bad) ↦ rw (bad, commit_buffer_release, find) v
    | inl (r, found) ↦ elim (Bool-cases (is_releasing r.resource.release)) [
      | inr kept ↦ rw (found, kept, commit_buffer_release, find, ensure_releasing) v
      | inl going ↦ (commit_buffer-Inv s id r found going v).1
    ]
  ]
