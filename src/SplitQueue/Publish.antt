-- ===== src/SplitQueue/Publish.antt =====
-- `publish_inner` of crates/virtio-accel-split-queue/src/queue.rs: where descriptors are free, the
-- allocation succeeds and the chain is enqueued under a head that no chain has.
use virtio_accel.Prelude.{
  ℕ, zero, suc, ◌+◌, ◌-◌, ◌^◌, ◌≤◌, ◌<◌, ◌≡◌, ◌∙◌, refl, ap, subst, true, List, [], ◌∷◌, length,
  set, length-set, sum_by, Option, none, some, arith, ==_refl, ==_cases, inl, inr, Option-cases,
  take, get_elem?, ok,
}
use virtio_accel.SplitQueue.Chain.{DriverChain, queue_head_slot, chain_descriptor_count}
use virtio_accel.SplitQueue.Ring.{
  RingStorage, DescriptorOwner, Allocation, at, take_slots, set_heads, own_slots,
  allocate_descriptors,
}
use virtio_accel.SplitQueue.Entries.{present, absent, at-lt, at-set_self, at-set_ne, sum_by-write}
use virtio_accel.SplitQueue.Owners.{Owners, occurrences}
use virtio_accel.SplitQueue.Allocate.{take_slots-Taken, Taken, occurrences-take_all}

-- A chain as the constructors of chain.rs make it: a slot for each descriptor, some but not too many.
pub record IsChain (chain : DriverChain) : Type 0 where
  pub slots_length : length chain.slots ≡ length chain.chain_data.descriptors
  pub nonempty : 0 < length chain.chain_data.descriptors
  pub bounded : length chain.chain_data.descriptors < 2 ^ 16

first_slot :
    (slots : List ℕ)
    → 0 < length slots
    → 0 < occurrences (elim slots [ [] ↦ 0 | slot ∷ _ ↦ slot ]) slots
first_slot [] h = absurd (omega arith)
first_slot (x ∷ xs) h = ground arith

get_elem?-occurrences :
    (slots : List ℕ) (i slot : ℕ) → get_elem? slots i ≡ some slot → 0 < occurrences slot slots
get_elem?-occurrences [] i slot e = absurd (cc)
get_elem?-occurrences (x ∷ xs) zero slot e = ground arith
get_elem?-occurrences (x ∷ xs) (suc i) slot e = omega (arith, get_elem?-occurrences xs i slot e)

-- The head of a chain is one of its slots.
queue_head_slot-occurrences :
    (chain : DriverChain)
    → 0 < length chain.slots
    → 0 < occurrences (queue_head_slot chain) chain.slots
unfolding queue_head_slot
queue_head_slot-occurrences chain h = elim (Option-cases (get_elem? chain.slots chain.head)) [
  | inl e ↦
      subst (λ k. 0 < occurrences k chain.slots)
        (let eq : (elim chain.slots [ [] ↦ 0 | slot ∷ _ ↦ slot ]) ≡ queue_head_slot chain =
            rw (e, queue_head_slot) refl in
          eq)
        (first_slot chain.slots h)
  | inr (slot, e) ↦
      subst (λ k. 0 < occurrences k chain.slots)
        (let eq : slot ≡ queue_head_slot chain = rw (e, queue_head_slot) refl in eq)
        (get_elem?-occurrences chain.slots chain.head slot e)
]

-- What the loop over the slots does, where each has an owner.
record Headed (ds ds' : List (Option DescriptorOwner)) : Type 0 where
  kept_length : length ds' ≡ length ds
  same : (i : ℕ) → present (at ds' i) ≡ present (at ds i)
  absent_number : sum_by absent ds' ≡ sum_by absent ds

module _ (ds : List (Option DescriptorOwner)) (slot : ℕ) where
  same_present :
      (i : ℕ) (o o' : DescriptorOwner)
      → at ds slot ≡ some o
      → slot < length ds
      → present (at (set ds slot (some o')) i) ≡ present (at ds i)
  same_present i o o' e inside = elim (==_cases i slot) [
    | inl same ↦ rw (same, at-set_self ds slot (some o') inside, e) refl
    | inr other ↦ ap present (at-set_ne ds slot i (some o') (ground arith))
  ]

  same_absent :
      (o o' : DescriptorOwner)
      → at ds slot ≡ some o
      → slot < length ds
      → sum_by absent (set ds slot (some o')) ≡ sum_by absent ds
  same_absent o o' e inside = ground (arith, sum_by-write absent ds slot (some o') inside, e)

set_heads-Headed :
    (head : ℕ) (slots : List ℕ) (ds : List (Option DescriptorOwner))
    → ((i : ℕ) → occurrences i slots ≤ present (at ds i))
    → (ds' : List (Option DescriptorOwner)) × (set_heads head slots ds ≡ (ds', true))
      × Headed ds ds'
unfolding set_heads
set_heads-Headed head [] ds owned =
    (ds, refl, record { kept_length = refl; same = λ i. refl; absent_number = refl })
set_heads-Headed head (slot ∷ slots) ds owned = elim (Option-cases (at ds slot)) [
  | inl e ↦ absurd (ground (arith, owned slot, ==_refl slot))
  | inr (o, e) ↦
      let inside : slot < length ds = at-lt ds slot e in
      let fresh : Option DescriptorOwner = some (record o { head = head }) in
      let step : (i : ℕ) → present (at (set ds slot fresh) i) ≡ present (at ds i) =
        λ i. same_present ds slot i o (record o { head = head }) e inside in
      let (ds', done, h) =
        set_heads-Headed head slots (set ds slot fresh) (λ i. omega (arith, owned i, step i)) in
      (
        ds',
        rw (e, set_heads) done,
        record {
          kept_length = h.kept_length ∙ length-set ds slot fresh;
          same = λ i. h.same i ∙ step i;
          absent_number =
              omega
                (arith, h.absent_number, same_absent ds slot o (record o { head = head }) e inside);
        },
      )
]

pub present_once : (o : Option DescriptorOwner) → present o ≤ 1
present_once none = omega arith
present_once (some o) = omega arith

-- What `allocate_descriptors` does, where enough descriptors are free.
pub record Allocated (s : RingStorage) (chain : DriverChain) : Type 0 where
  pub storage : RingStorage
  pub slots : List ℕ
  pub head : ℕ
  pub result : allocate_descriptors s chain ≡ (storage, record chain { slots = slots }, ok head)
  pub frame : storage ≡ record s {
    descriptors = storage.descriptors;
    free_descriptors = storage.free_descriptors;
    next_descriptor = storage.next_descriptor;
  }
  pub owned :
      (i : ℕ)
      → present (at storage.descriptors i) ≡ present (at s.descriptors i) + occurrences i slots
  pub kept_length : length storage.descriptors ≡ s.size
  pub next_range : storage.next_descriptor < s.size
  pub free_number : storage.free_descriptors ≡ sum_by absent storage.descriptors
  pub slots_length : length slots ≡ length chain.slots
  pub head_in : 0 < occurrences head slots

chain_descriptor_count_lem :
    (chain : DriverChain) → IsChain chain → chain_descriptor_count chain ≡ length chain.slots
unfolding chain_descriptor_count
chain_descriptor_count_lem chain c = omega (arith, c.slots_length, c.bounded)

module _ (s : RingStorage) (o : Owners s) (chain : DriverChain) (c : IsChain chain)
    (enough : chain_descriptor_count chain ≤ s.free_descriptors) (k : ℕ) (power : s.size ≡ 2 ^ k)
    (small : k < 16) where
  count_lem : chain_descriptor_count chain ≡ length chain.slots
  count_lem = chain_descriptor_count_lem chain c

  taken :
      (b : Allocation) × (take_slots s.size
          (chain_descriptor_count chain)
          0
          (record { descriptors = s.descriptors; slots = chain.slots; cursor = s.next_descriptor })
        ≡ (b, true))
      × Taken s.size
          (chain_descriptor_count chain)
          0
          (record { descriptors = s.descriptors; slots = chain.slots; cursor = s.next_descriptor })
          b
  taken =
      take_slots-Taken s.size k power small (chain_descriptor_count chain) 0
        (record { descriptors = s.descriptors; slots = chain.slots; cursor = s.next_descriptor })
        o.next_range o.descriptors_length (omega (arith, count_lem)) (omega (arith, o.free_number))

  module _ (b : Allocation)
      (t : Taken s.size
        (chain_descriptor_count chain)
        0
        (record { descriptors = s.descriptors; slots = chain.slots; cursor = s.next_descriptor })
        b) where
    filled_all :
        (i : ℕ)
        → present (at b.descriptors i) ≡ present (at s.descriptors i) + occurrences i b.slots
    filled_all i = omega (
      arith,
      t.filled i,
      occurrences-take_all b.slots i,
      ap (λ n. occurrences i (take n b.slots))
          (let e : chain_descriptor_count chain + 0 ≡ length b.slots =
              omega (arith, count_lem, t.slots_length) in
            e),
    )

    headed :
        (ds : List (Option DescriptorOwner)) × (set_heads
            (queue_head_slot (record chain { slots = b.slots }))
            b.slots
            b.descriptors
          ≡ (ds, true))
        × Headed b.descriptors ds
    headed =
        set_heads-Headed (queue_head_slot (record chain { slots = b.slots })) b.slots b.descriptors
          (λ i. omega (arith, filled_all i))

  allocate_result :
      (b : Allocation) (ds : List (Option DescriptorOwner))
      → take_slots s.size
          (chain_descriptor_count chain)
          0
          (record { descriptors = s.descriptors; slots = chain.slots; cursor = s.next_descriptor })
        ≡ (b, true)
      → set_heads (queue_head_slot (record chain { slots = b.slots })) b.slots b.descriptors
        ≡ (ds, true)
      → allocate_descriptors s chain ≡ (
        record s {
          descriptors = ds;
          next_descriptor = b.cursor;
          free_descriptors = s.free_descriptors - chain_descriptor_count chain;
        },
        record chain { slots = b.slots },
        ok (queue_head_slot (record chain { slots = b.slots })),
      )
  unfolding allocate_descriptors own_slots chain_descriptor_count
  allocate_result b ds done owned = ground arith

  pub allocate_descriptors-Allocated : Allocated s chain
  allocate_descriptors-Allocated =
      let (b, done, t) = taken in
      let (ds, owned, h) = headed b t in
      record {
        storage = record s {
          descriptors = ds;
          next_descriptor = b.cursor;
          free_descriptors = s.free_descriptors - chain_descriptor_count chain;
        };
        slots = b.slots;
        head = queue_head_slot (record chain { slots = b.slots });
        result = allocate_result b ds done owned;
        frame = refl;
        owned = λ i. h.same i ∙ filled_all b t i;
        kept_length = h.kept_length ∙ t.kept_length ∙ o.descriptors_length;
        next_range = t.cursor_range;
        free_number = omega (arith, h.absent_number, t.absent_number, o.free_number);
        slots_length = t.slots_length;
        head_in =
            queue_head_slot-occurrences (record chain { slots = b.slots })
              (omega (arith, t.slots_length, c.slots_length, c.nonempty));
      }
