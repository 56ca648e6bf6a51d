-- ===== src/SplitQueue/Walk.antt =====
-- The walk of `analyze_chain` in crates/virtio-accel-split-queue/src/chain.rs ends, and a chain that it
-- accepts is one path through all of its descriptors.
use virtio_accel.Prelude.{
  ℕ, zero, suc, ◌+◌, ◌<◌, ◌≡◌, ◌≢◌, ◌∙◌, inl, inr, true, List, [], ◌∷◌, ◌++◌, get_elem?, set,
  sum_by, sum_by-set, none, some, ap, sym, subst, arith, Bool-cases, Option-cases, ◌==◌,
  if◌then◌else◌, ==_cases, get_elem?-set_at, get_elem?-set_ne, get_elem?-lt,
}
use virtio_accel.Transport.{MalformedChain}
use virtio_accel.SplitQueue.Chain.{
  Descriptor, DescriptorSpan, Walk, WalkEnd, finished, stopped, out_of_fuel, walk, check_descriptor,
  push_descriptor, has, virtq_desc_f_next, is_writable, descriptor_len,
}

abbrev pub unmarked : ℕ → ℕ
unmarked zero = 1
unmarked (suc _) = 0

-- How often the spans name a descriptor.
abbrev pub names_descriptor : ℕ → DescriptorSpan → ℕ
names_descriptor i span = if span.descriptor == i then 1 else 0

abbrev pub mark : List ℕ → ℕ → ℕ
mark visited i = elim (get_elem? visited i) [ none ↦ 0 | some m ↦ m ]

pub push-spans :
    (w w' : Walk) (current : ℕ) (d : Descriptor)
    → push_descriptor w current d ≡ some w'
    → (end : ℕ) × (w'.spans ≡ w.spans ++ (record { descriptor = current; end = end }) ∷ [])
      × (w'.visited ≡ w.visited)
unfolding push_descriptor
push-spans w w' current d e = elim (Bool-cases (is_writable d)) [
  | inl writes ↦ (w.writable_end + descriptor_len d, ground arith, ground arith)
  | inr reads ↦ (w.readable_end + descriptor_len d, ground arith, ground arith)
]

abbrev pub marked : Walk → ℕ → Walk
marked w current = record w { visited = set w.visited current 1 }

pub mark-set :
    (visited : List ℕ) (current i m : ℕ)
    → get_elem? visited current ≡ some m
    → mark (set visited current 1) i ≡ (if current == i then 1 else mark visited i)
mark-set visited current i m e = elim (==_cases i current) [
  | inl same ↦ ground (arith, get_elem?-set_at visited current 1 (get_elem?-lt visited current e))
  | inr other ↦ ground (arith, get_elem?-set_ne visited current i 1 (λ q. ground (arith, q)))
]

-- A round that goes on.
walk-next :
    (fuel : ℕ) (ds : List Descriptor) (current : ℕ) (w : Walk) (d : Descriptor) (w' : Walk)
    → get_elem? ds current ≡ some d
    → get_elem? w.visited current ≡ some 0
    → check_descriptor d ≡ none
    → push_descriptor (marked w current) current d ≡ some w'
    → has d.flags virtq_desc_f_next ≡ true
    → (walk (suc fuel) ds current w).1 ≡ (walk fuel ds d.next w').1
unfolding walk
walk-next fuel ds current w d w' there fresh good pushed more = ground arith

-- The walk ends before its fuel does, if the fuel is more than the number of descriptors that are not
-- marked; the fuel of `analyze_chain` is one more than all of them.
pub walk-ends :
    (fuel : ℕ) (ds : List Descriptor) (current : ℕ) (w : Walk)
    → sum_by unmarked w.visited < fuel
    → (walk fuel ds current w).1 ≢ out_of_fuel
unfolding walk
walk-ends zero ds current w h e = absurd (omega arith)
walk-ends (suc fuel) ds current w h e = elim (Option-cases (get_elem? ds current)) [
  | inl missing ↦ ground (arith, missing)
  | inr (d, there) ↦ elim (Option-cases (get_elem? w.visited current)) [
    | inl unknown ↦ ground (arith, there, unknown)
    | inr (suc m, seen) ↦ ground (arith, there, seen)
    | inr (zero, fresh) ↦ elim (Option-cases (check_descriptor d)) [
      | inr (error, bad) ↦ ground (arith, there, fresh, bad)
      | inl good ↦ elim (Option-cases (push_descriptor (marked w current) current d)) [
        | inl overflow ↦ ground (arith, there, fresh, good, overflow)
        | inr (w', pushed) ↦ elim (Bool-cases (has d.flags virtq_desc_f_next)) [
          | inr last ↦ ground (arith, there, fresh, good, pushed, last)
          | inl more ↦
              walk-ends fuel ds d.next w'
                (omega (
                  arith,
                  sum_by-set unmarked w.visited current 1 0 fresh,
                  ap (sum_by unmarked) (push-spans (marked w current) w' current d pushed).2,
                ))
                (sym (walk-next fuel ds current w d w' there fresh good pushed more) ∙ e)
        ]
      ]
    ]
  ]
]

-- A rule for the walk: what each descriptor that is pushed keeps, and what follows at each end.
module _ {ℓ κ} (P : Walk → Type ℓ) (Q : Walk × WalkEnd → Type κ) (ds : List Descriptor)
    (stop : (w : Walk) (e : WalkEnd) → e ≢ finished → P w → Q (w, e))
    (stop_marked : (w : Walk) (current : ℕ) (e : WalkEnd)
      → e ≢ finished
      → P w
      → Q (marked w current, e))
    (pushes : (w w' : Walk) (current : ℕ) (d : Descriptor)
      → get_elem? w.visited current ≡ some 0
      → push_descriptor (marked w current) current d ≡ some w'
      → P w
      → P w')
    (finish : (w : Walk) → P w → Q (w, finished)) where
  pub walk_rule : (fuel current : ℕ) (w : Walk) → P w → Q (walk fuel ds current w)
  unfolding walk
  walk_rule zero current w p = stop w out_of_fuel (λ e. cc) p
  walk_rule (suc fuel) current w p = elim (Option-cases (get_elem? ds current)) [
    | inl missing ↦
        subst Q
          (let e : (w, stopped MalformedChain.descriptor_index) ≡ walk (suc fuel) ds current w =
              ground (arith, missing) in
            e)
          (stop w _ (λ e. cc) p)
    | inr (d, there) ↦ elim (Option-cases (get_elem? w.visited current)) [
      | inl unknown ↦
          subst Q
            (let e : (w, stopped MalformedChain.descriptor_index) ≡ walk (suc fuel) ds current w =
                ground (arith, there, unknown) in
              e)
            (stop w _ (λ e. cc) p)
      | inr (suc m, seen) ↦
          subst Q
            (let e : (w, stopped MalformedChain.descriptor_loop) ≡ walk (suc fuel) ds current w =
                ground (arith, there, seen) in
              e)
            (stop w _ (λ e. cc) p)
      | inr (zero, fresh) ↦ elim (Option-cases (check_descriptor d)) [
        | inr (error, bad) ↦
            subst Q
              (let e : (marked w current, stopped error) ≡ walk (suc fuel) ds current w =
                  ground (arith, there, fresh, bad) in
                e)
              (stop_marked w current _ (λ e. cc) p)
        | inl good ↦ elim (Option-cases (push_descriptor (marked w current) current d)) [
          | inl overflow ↦
              subst Q
                (let e : (marked w current, stopped MalformedChain.length_overflow)
                      ≡ walk (suc fuel) ds current w =
                    ground (arith, there, fresh, good, overflow) in
                  e)
                (stop_marked w current _ (λ e. cc) p)
          | inr (w', pushed) ↦ elim (Bool-cases (has d.flags virtq_desc_f_next)) [
            | inr last ↦
                subst Q
                  (let e : (w', finished) ≡ walk (suc fuel) ds current w =
                      ground (arith, there, fresh, good, pushed, last) in
                    e)
                  (finish w' (pushes w w' current d fresh pushed p))
            | inl more ↦
                subst Q
                  (let e : walk fuel ds d.next w' ≡ walk (suc fuel) ds current w =
                      ground (arith, there, fresh, good, pushed, more) in
                    e)
                  (walk_rule fuel d.next w' (pushes w w' current d fresh pushed p))
          ]
        ]
      ]
    ]
  ]
