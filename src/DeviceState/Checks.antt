-- ===== src/DeviceState/Checks.antt =====
-- What the checks of a submission establish: every ID resolves to a live object of the context, and
-- no count overflows.
use virtio_accel.Prelude.{
  ℕ, ◌+◌, ◌≤◌, ◌<◌, ◌≡◌, refl, sym, ◌∙◌, inl, inr, true, false, List, [], ◌∷◌, arith, ok,
  Result-cases, is_some, u32_mod, All, if◌then◌else◌, ◌==◌, leb, Bool-cases, ==_cases,
}
use virtio_accel.ObjectTable.{get}
use virtio_accel.DeviceState.Records.{BufferRecord, ProgramRecord, slot_get}
use virtio_accel.DeviceState.Graph.{DeviceState, find}
use virtio_accel.DeviceState.References.{
  count, contains, sort, sort_in, check_count, check_add, check_buffers, check_programs,
  check_program_counts, check_buffer_run, check_buffer_runs, check_buffer_counts,
}

abbrev pub Sorted : List ℕ → Type 0
Sorted [] = Unit
Sorted (x ∷ xs) = All (λ y. x ≤ y) xs × Sorted xs

-- Sorting keeps every count.
count-sort_in : (id : ℕ) (ids : List ℕ) (k : ℕ) → count k (sort_in id ids) ≡ count k (id ∷ ids)
unfolding sort_in count
count-sort_in id [] k = refl
count-sort_in id (x ∷ ids) k = ground (arith, count-sort_in id ids k)

pub count-sort : (ids : List ℕ) (k : ℕ) → count k (sort ids) ≡ count k ids
unfolding sort count
count-sort [] k = refl
count-sort (x ∷ ids) k = count-sort_in x (sort ids) k ∙ ground (arith, count-sort ids k)

All-sort_in :
    (b id : ℕ) (ids : List ℕ) → b ≤ id → All (λ y. b ≤ y) ids → All (λ y. b ≤ y) (sort_in id ids)
unfolding sort_in
All-sort_in b id [] h a = (h, tt)
All-sort_in b id (x ∷ ids) h a = elim (Bool-cases (leb id x)) [
  | inl le ↦ rw (le, sort_in) (h, a)
  | inr gt ↦ rw (gt, sort_in) (a.0, All-sort_in b id ids h a.1)
]

All-le : (b c : ℕ) (ids : List ℕ) → b ≤ c → All (λ y. c ≤ y) ids → All (λ y. b ≤ y) ids
All-le b c [] h a = tt
All-le b c (x ∷ ids) h a = (omega (arith, a.0), All-le b c ids h a.1)

sort_in-Sorted : (id : ℕ) (ids : List ℕ) → Sorted ids → Sorted (sort_in id ids)
unfolding sort_in
sort_in-Sorted id [] h = (tt, tt)
sort_in-Sorted id (x ∷ ids) h = elim (Bool-cases (leb id x)) [
  | inl le ↦ rw (le, sort_in) ((ground arith, All-le id x ids (ground arith) h.0), h)
  | inr gt ↦ rw (gt, sort_in) (All-sort_in x id ids (ground arith) h.0, sort_in-Sorted id ids h.1)
]

pub sort-Sorted : (ids : List ℕ) → Sorted (sort ids)
unfolding sort
sort-Sorted [] = tt
sort-Sorted (x ∷ ids) = sort_in-Sorted x (sort ids) (sort-Sorted ids)

count_below : (k b : ℕ) (ids : List ℕ) → k < b → All (λ y. b ≤ y) ids → count k ids ≡ 0
unfolding count
count_below k b [] h a = refl
count_below k b (x ∷ ids) h a = ground (arith, count_below k b ids h a.1)

module _ {C B P Q E : Type 0} where
  -- An object of the context whose resource is held.
  abbrev pub LiveBuffer : DeviceState C B P Q E → ℕ → ℕ → Type 0
  LiveBuffer s context_id k =
      (r : BufferRecord B) × (get s.buffers k ≡ ok r)
      × (is_some r.resource.resource ≡ true)
      × (r.context_id ≡ context_id)

  abbrev pub LiveProgram : DeviceState C B P Q E → ℕ → ℕ → Type 0
  LiveProgram s context_id k =
      (r : ProgramRecord P) × (get s.programs k ≡ ok r)
      × (is_some r.resource.resource ≡ true)
      × (r.context_id ≡ context_id)

  pub check_buffers_lem :
      (s : DeviceState C B P Q E) (context_id : ℕ) (ids : List ℕ)
      → check_buffers s context_id ids ≡ ok tt
      → (k : ℕ) → 0 < count k ids
      → LiveBuffer s context_id k
  unfolding check_buffers find slot_get count
  check_buffers_lem s context_id [] h k p = absurd (ground arith)
  check_buffers_lem s context_id (id ∷ ids) h k p = elim (Result-cases (get s.buffers id)) [
    | inr (e, bad) ↦ absurd (ground arith)
    | inl (r, found) ↦ elim (==_cases id k) [
      | inl same ↦ (r, rw (sym same) found, ground arith, ground arith)
      | inr other ↦ check_buffers_lem s context_id ids (ground arith) k (ground arith)
    ]
  ]

  pub check_programs_lem :
      (s : DeviceState C B P Q E) (context_id : ℕ) (ids : List ℕ)
      → check_programs s context_id ids ≡ ok tt
      → (k : ℕ) → 0 < count k ids
      → LiveProgram s context_id k
  unfolding check_programs find slot_get count
  check_programs_lem s context_id [] h k p = absurd (ground arith)
  check_programs_lem s context_id (id ∷ ids) h k p = elim (Result-cases (get s.programs id)) [
    | inr (e, bad) ↦ absurd (ground arith)
    | inl (r, found) ↦ elim (==_cases id k) [
      | inl same ↦ (r, rw (sym same) found, ground arith, ground arith)
      | inr other ↦ check_programs_lem s context_id ids (ground arith) k (ground arith)
    ]
  ]

  pub check_program_counts_lem :
      (s : DeviceState C B P Q E) (seen ids : List ℕ)
      → check_program_counts s seen ids ≡ ok tt
      → (k : ℕ) (r : ProgramRecord P) → contains k seen ≡ false
      → 0 < count k ids
      → get s.programs k ≡ ok r
      → r.in_flight + count k ids < u32_mod
  unfolding check_program_counts find check_count check_add contains count
  check_program_counts_lem s seen [] h k r fresh p found = absurd (ground arith)
  check_program_counts_lem s seen (id ∷ ids) h k r fresh p found = elim (==_cases id k) [
    | inl same ↦ ground arith
    | inr other ↦
        let rest : check_program_counts s (id ∷ seen) ids ≡ ok tt = ground arith in
        ground (arith, check_program_counts_lem s (id ∷ seen) ids rest k r)
  ]

  check_buffer_runs_lem :
      (s : DeviceState C B P Q E) (id run : ℕ) (ids : List ℕ)
      → Sorted (id ∷ ids)
      → check_buffer_runs s id run ids ≡ ok tt
      → (k : ℕ) (r : BufferRecord B) → 0 < (if id == k then run else 0) + count k ids
      → get s.buffers k ≡ ok r
      → r.in_flight + ((if id == k then run else 0) + count k ids) < u32_mod
  unfolding check_buffer_runs check_buffer_run find check_count check_add count
  check_buffer_runs_lem s id run [] sorted h k r p found = ground arith
  check_buffer_runs_lem s id run (x ∷ ids) sorted h k r p found = elim (==_cases x id) [
    | inl same ↦
        let rest : check_buffer_runs s id (run + 1) ids ≡ ok tt = ground arith in
        ground (arith, check_buffer_runs_lem s id (run + 1) ids (sorted.0.1, sorted.1.1) rest k r)
    | inr other ↦
        let rest : check_buffer_runs s x 1 ids ≡ ok tt = ground arith in
        let gone : count id (x ∷ ids) ≡ 0 =
          count_below id x (x ∷ ids) (ground (arith, sorted.0.0)) (omega arith, sorted.1.0) in
        ground (arith, gone, check_buffer_runs_lem s x 1 ids sorted.1 rest k r)
  ]

  pub check_buffer_counts_lem :
      (s : DeviceState C B P Q E) (ids : List ℕ)
      → Sorted ids
      → check_buffer_counts s ids ≡ ok tt
      → (k : ℕ) (r : BufferRecord B) → 0 < count k ids
      → get s.buffers k ≡ ok r
      → r.in_flight + count k ids < u32_mod
  unfolding check_buffer_counts count
  check_buffer_counts_lem s [] sorted h k r p found = absurd (ground arith)
  check_buffer_counts_lem s (id ∷ ids) sorted h k r p found =
      ground (arith, check_buffer_runs_lem s id 1 ids sorted h k r)
