-- ===== src/SplitQueue/Once.antt =====
-- A chain that crates/virtio-accel-split-queue/src/chain.rs accepts goes through each of its
-- descriptors once.
use virtio_accel.Prelude.{
  ℕ, zero, suc, ◌≤◌, ◌<◌, ◌≡◌, ◌∙◌, inl, inr, Bool, true, List, [], ◌∷◌, length, get_elem?,
  length-set, sum_by, sum_by-set, sum_by-push, length-push, some, ap, refl, sym, subst, arith, ok,
  Result-cases, ◌==◌, replicate,
}
use virtio_accel.Transport.{max_split_queue_size}
use virtio_accel.Transport.Regions.{ChainLayout, ChainRegion, validate_chain_layout}
use virtio_accel.SplitQueue.Chain.{
  Descriptor, DescriptorSpan, Walk, WalkEnd, finished, stopped, out_of_fuel, walk, push_descriptor,
  start_walk, valid, conclude, analyze_chain, raw, zeroed_u16_box, DriverChain, u16_max,
}
use virtio_accel.SplitQueue.Publish.{IsChain}
use virtio_accel.SplitQueue.Walk.{names_descriptor, mark, marked, mark-set, push-spans, walk_rule}

-- The marks of the descriptors and the spans pushed so far.
record Counted (n : ℕ) (w : Walk) : Type 0 where
  marks : length w.visited ≡ n
  once : (i : ℕ) → sum_by (names_descriptor i) w.spans ≡ mark w.visited i
  small : (i : ℕ) → mark w.visited i ≤ 1
  pushed : length w.spans ≡ sum_by (λ m. m) w.visited

mark_at :
    (visited : List ℕ) (current i : ℕ)
    → get_elem? visited current ≡ some 0
    → (current == i) ≡ true
    → mark visited i ≡ 0
mark_at visited current i fresh e =
    let same : current ≡ i = ground arith in
    subst (λ k. mark visited k ≡ 0) same (ground (arith, fresh))

push-Counted :
    (n : ℕ) (w w' : Walk) (current : ℕ) (d : Descriptor)
    → get_elem? w.visited current ≡ some 0
    → push_descriptor (marked w current) current d ≡ some w'
    → Counted n w
    → Counted n w'
push-Counted n w w' current d fresh pushed c =
    let (end, spans, visited) = push-spans (marked w current) w' current d pushed in
    record {
      marks = ap length visited ∙ length-set w.visited current 1 ∙ c.marks;
      once = λ i.
          rw (spans, visited)
            (ground (
              arith,
              sum_by-push (names_descriptor i) w.spans (record { descriptor = current; end = end }),
              c.once i,
              mark-set w.visited current i 0 fresh,
              mark_at w.visited current i fresh,
            ));
      small = λ i. rw visited (ground (arith, c.small i, mark-set w.visited current i 0 fresh));
      pushed =
          rw (spans, visited)
            (omega (
              arith,
              length-push w.spans (record { descriptor = current; end = end }),
              sum_by-set (λ m. m) w.visited current 1 0 fresh,
              c.pushed,
            ));
    }

-- Marks of which each is one at most and which sum up to their number.
mark-sum_le : (ms : List ℕ) → ((i : ℕ) → mark ms i ≤ 1) → sum_by (λ m. m) ms ≤ length ms
mark-sum_le [] h = omega arith
mark-sum_le (m ∷ ms) h = omega (arith, h 0, mark-sum_le ms (λ i. h (suc i)))

all_marked :
    (ms : List ℕ) (i : ℕ)
    → ((j : ℕ) → mark ms j ≤ 1)
    → sum_by (λ m. m) ms ≡ length ms
    → i < length ms
    → mark ms i ≡ 1
all_marked [] i h e lt = absurd (omega arith)
all_marked (m ∷ ms) zero h e lt = omega (arith, h 0, mark-sum_le ms (λ j. h (suc j)))
all_marked (m ∷ ms) (suc i) h e lt =
    all_marked ms i (λ j. h (suc j)) (omega (arith, h 0, mark-sum_le ms (λ j. h (suc j))))
      (omega arith)

module _ (n : ℕ) where
  mark-replicate : (i : ℕ) → mark (replicate n 0) i ≡ 0
  mark-replicate i = go n i
    where
      go : (k i : ℕ) → mark (replicate k 0) i ≡ 0
      go zero i = refl
      go (suc k) zero = refl
      go (suc k) (suc i) = go k i

  sum-replicate : sum_by (λ m. m) (replicate n 0) ≡ 0
  sum-replicate = go n
    where
      go : (k : ℕ) → sum_by (λ m. m) (replicate k 0) ≡ 0
      go zero = refl
      go (suc k) = omega (arith, go k)

  length-zeroes : length {A = ℕ} (replicate n 0) ≡ n
  length-zeroes = go n
    where
      go : (k : ℕ) → length {A = ℕ} (replicate k 0) ≡ k
      go zero = refl
      go (suc k) = ap suc (go k)

  start-Counted : Counted n (start_walk (replicate n 0))
  start-Counted = record {
    marks = length-zeroes;
    once = λ i. sym (mark-replicate i);
    small = λ i. omega (arith, mark-replicate i);
    pushed = sym sum-replicate;
  }

conclude-valid :
    (ds : List Descriptor) (w : Walk) (e : WalkEnd) {layout : ChainLayout}
    {spans : List DescriptorSpan} {regions : List ChainRegion}
    → conclude ds w e ≡ valid layout spans regions
    → (e ≡ finished) × (length w.spans ≡ length ds) × (w.spans ≡ spans)
unfolding conclude
conclude-valid ds w (stopped error) h = absurd (cc)
conclude-valid ds w out_of_fuel h = absurd (cc)
conclude-valid ds w finished h = elim (Result-cases (validate_chain_layout w.regions u16_max)) [
  | inl (l, e) ↦ (refl, ground arith, ground arith)
  | inr (bad, e) ↦ absurd (ground arith)
]

-- What is known at the end of a walk.
abbrev AtEnd : ℕ → Walk × WalkEnd → Type 0
AtEnd n (w, e) = (length w.visited ≡ n) × (e ≡ finished → Counted n w)

walk-AtEnd :
    (n fuel : ℕ) (ds : List Descriptor) (head : ℕ)
    → AtEnd n (walk fuel ds head (start_walk (replicate n 0)))
walk-AtEnd n fuel ds head =
    walk_rule (Counted n) (AtEnd n) ds (λ w e ne c. (c.marks, λ f. absurd (ne f)))
      (λ w current e ne c. (length-set w.visited current 1 ∙ c.marks, λ f. absurd (ne f)))
      (λ w w' current d fresh pushed c. push-Counted n w w' current d fresh pushed c)
      (λ w c. (c.marks, λ f. c)) fuel head (start_walk (replicate n 0)) (start-Counted n)

module _ (reserve : ℕ → Bool) (ds : List Descriptor) (head : ℕ) {chain : DriverChain}
    (made : raw reserve ds head ≡ ok chain) where
  abbrev last_walk : Walk × WalkEnd
  last_walk = walk (suc (length ds)) ds head (start_walk (replicate (length ds) 0))

  raw-parts :
      (0 < length ds)
      × (length ds ≤ max_split_queue_size)
      × (chain ≡ record {
        chain_data = record {
          descriptors = ds;
          analysis =
              conclude ds
                (walk (suc (length ds)) ds head (start_walk (replicate (length ds) 0))).0
                (walk (suc (length ds)) ds head (start_walk (replicate (length ds) 0))).1;
        };
        slots = (walk (suc (length ds)) ds head (start_walk (replicate (length ds) 0))).0.visited;
        head = head;
      })
  unfolding raw zeroed_u16_box analyze_chain
  raw-parts = ground arith

  -- `DriverChain::raw` makes a chain with a slot for each descriptor, whatever the descriptors hold.
  pub raw-IsChain : IsChain chain
  raw-IsChain =
      let (some_there, few, e) = raw-parts in
      subst IsChain (sym e) (record {
        slots_length = (walk-AtEnd (length ds) (suc (length ds)) ds head).0;
        nonempty = some_there;
        bounded = omega arith;
      })

  -- Where `DriverChain::raw` finds a chain valid, its spans are as many as its descriptors, and each
  -- descriptor is in exactly one of them: there is no loop, and no descriptor is left out.
  pub raw-once :
      {layout : ChainLayout} {spans : List DescriptorSpan} {regions : List ChainRegion} (i : ℕ)
      → chain.chain_data.analysis ≡ valid layout spans regions
      → i < length ds
      → (length spans ≡ length ds) × (sum_by (names_descriptor i) spans ≡ 1)
  raw-once i accepted lt =
      let concluded =
        ap (λ (c : DriverChain). c.chain_data.analysis) (sym raw-parts.2) ∙ accepted in
      let (done, full, same) = conclude-valid ds _ _ concluded in
      let c = (walk-AtEnd (length ds) (suc (length ds)) ds head).1 done in
      (
        ap length (sym same) ∙ full,
        ap (sum_by (names_descriptor i)) (sym same)
            ∙ c.once i
            ∙ all_marked _ i c.small (omega (arith, c.pushed, c.marks, full))
                (omega (arith, c.marks)),
      )
