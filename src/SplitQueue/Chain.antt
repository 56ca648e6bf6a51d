-- ===== src/SplitQueue/Chain.antt =====
-- Descriptor chains: crates/virtio-accel-split-queue/src/chain.rs. The bytes of a mapped buffer are
-- behind an `Rc` that the driver's and the device's view of a chain share. A mapped buffer is
-- therefore the number of a cell of a byte store beside the length of its bytes, which never changes.
-- `reserve` says whether the allocator grants so many entries.
use Prim.Native.Nat.{bit_and, bit_or}
use virtio_accel.Prelude.{
  ℕ, zero, suc, ◌+◌, ◌%◌, ◌^◌, Bool, true, false, not, ltb, ◌==◌, if◌then◌else◌, List, [], ◌∷◌,
  ◌++◌, length, get_elem?, set, Option, none, some, Result, ok, err, ◌>>=◌, ◌>>◌, reject_if,
  replicate, take, drop,
}
use virtio_accel.Transport.{
  MalformedChain, from_layout_error, max_split_queue_size, ChainId, ChainError,
}
use virtio_accel.Transport.Regions.{
  ChainLayout, ChainRegion, readable, writable, validate_chain_layout,
}
use virtio_accel.Transport.Bytes.{ByteAccessError}

abbrev pub virtq_desc_f_next : ℕ
virtq_desc_f_next = 1

abbrev pub virtq_desc_f_write : ℕ
virtq_desc_f_write = 2

abbrev pub virtq_desc_f_indirect : ℕ
virtq_desc_f_indirect = 4

-- `x & flag != 0`.
abbrev pub has : ℕ → ℕ → Bool
has flags flag = not (bit_and flags flag == 0)

-- `flags & !KNOWN_DESCRIPTOR_FLAGS` of a `u16`.
abbrev pub unknown_flags : ℕ
unknown_flags = 0xfff8

pub data BufferStorage : Type 0 where
  mapped : ℕ → ℕ → BufferStorage
  unmapped : ℕ → BufferStorage

-- `BufferStorage::len`.
unfoldable pub buffer_len : BufferStorage → ℕ
buffer_len (mapped cell bytes) = bytes
buffer_len (unmapped bytes) = bytes

unfoldable pub is_mapped : BufferStorage → Bool
is_mapped (mapped cell bytes) = true
is_mapped (unmapped bytes) = false

pub record Descriptor : Type 0 where
  pub buffer : BufferStorage
  pub flags : ℕ
  pub next : ℕ

-- `Descriptor::len`.
abbrev pub descriptor_len : Descriptor → ℕ
descriptor_len d = buffer_len d.buffer

abbrev pub is_writable : Descriptor → Bool
is_writable d = has d.flags virtq_desc_f_write

pub data ChainBuildError : Type 0 where
  empty descriptor_count allocation_failed : ChainBuildError
  malformed : MalformedChain → ChainBuildError

pub record DescriptorSpan : Type 0 where
  pub descriptor : ℕ
  pub end : ℕ

pub data ChainAnalysis : Type 0 where
  valid : ChainLayout → List DescriptorSpan → List ChainRegion → ChainAnalysis
  invalid : MalformedChain → ChainAnalysis

-- `ChainAnalysis::validation`, `spans` and `regions`.
unfoldable pub analysis_validation : ChainAnalysis → Result MalformedChain ChainLayout
analysis_validation (valid layout spans regions) = ok layout
analysis_validation (invalid error) = err error

unfoldable pub analysis_spans : ChainAnalysis → Bool → List DescriptorSpan
analysis_spans (valid layout spans regions) writable =
    if writable
    then drop layout.readable_descriptors spans
    else take layout.readable_descriptors spans
analysis_spans (invalid error) writable = []

unfoldable pub analysis_regions : ChainAnalysis → List ChainRegion
analysis_regions (valid layout spans regions) = regions
analysis_regions (invalid error) = []

pub record ChainData : Type 0 where
  pub descriptors : List Descriptor
  pub analysis : ChainAnalysis

pub record DriverChain : Type 0 where
  pub chain_data : ChainData
  pub slots : List ℕ
  pub head : ℕ

-- The variables of the loop of `analyze_chain`.
pub record Walk : Type 0 where
  pub visited : List ℕ
  pub spans : List DescriptorSpan
  pub regions : List ChainRegion
  pub readable_end : ℕ
  pub writable_end : ℕ

pub data WalkEnd : Type 0 where
  stopped : MalformedChain → WalkEnd
  finished : WalkEnd
  out_of_fuel : WalkEnd

-- The checks of one round: `none` if the descriptor passes them.
unfoldable pub check_descriptor : Descriptor → Option MalformedChain
check_descriptor d =
    if has d.flags unknown_flags
    then some MalformedChain.descriptor_flags
    else if has d.flags virtq_desc_f_indirect
    then some MalformedChain.indirect_unsupported
    else if is_mapped d.buffer
    then none
    else some MalformedChain.address

-- `checked_add` to `writable_end` or `readable_end`, and the pushes of one round.
unfoldable pub push_descriptor : Walk → ℕ → Descriptor → Option Walk
push_descriptor w current d =
    if is_writable d
    then (if ltb (w.writable_end + descriptor_len d) (2 ^ 64)
        then some (record w {
          writable_end = w.writable_end + descriptor_len d;
          spans =
              w.spans
              ++ (record { descriptor = current; end = w.writable_end + descriptor_len d }) ∷ [];
          regions = w.regions ++ writable (descriptor_len d) ∷ [];
        })
        else none)
    else if ltb (w.readable_end + descriptor_len d) (2 ^ 64)
    then some (record w {
      readable_end = w.readable_end + descriptor_len d;
      spans =
          w.spans
          ++ (record { descriptor = current; end = w.readable_end + descriptor_len d }) ∷ [];
      regions = w.regions ++ readable (descriptor_len d) ∷ [];
    })
    else none

-- The loop of `analyze_chain`; there are as many marks as descriptors. Each round marks another descriptor, so one round more than there are
-- descriptors is enough.
unfoldable pub walk : ℕ → List Descriptor → ℕ → Walk → Walk × WalkEnd
unfolding check_descriptor push_descriptor
walk zero descriptors current w = (w, out_of_fuel)
walk (suc fuel) descriptors current w = elim (get_elem? descriptors current) [
  | none ↦ (w, stopped MalformedChain.descriptor_index)
  | some d ↦ elim (get_elem? w.visited current) [
    | none ↦ (w, stopped MalformedChain.descriptor_index)
    | some (suc _) ↦ (w, stopped MalformedChain.descriptor_loop)
    | some zero ↦
        let marked = record w { visited = set w.visited current 1 } in
        elim (check_descriptor d) [
          | some error ↦ (marked, stopped error)
          | none ↦ elim (push_descriptor marked current d) [
            | none ↦ (marked, stopped MalformedChain.length_overflow)
            | some pushed ↦ elim (has d.flags virtq_desc_f_next) [
              | true ↦ walk fuel descriptors d.next pushed
              | false ↦ (pushed, finished)
            ]
          ]
        ]
  ]
]

abbrev pub u16_max : ℕ
u16_max = 65535

-- The end of `analyze_chain`.
unfoldable pub conclude : List Descriptor → Walk → WalkEnd → ChainAnalysis
conclude descriptors w (stopped error) = invalid error
conclude descriptors w finished =
    if length w.spans == length descriptors
    then elim (validate_chain_layout w.regions u16_max) [
      | ok layout ↦ valid layout w.spans w.regions
      | err error ↦ invalid (from_layout_error error)
    ]
    else invalid MalformedChain.descriptor_count
conclude descriptors w out_of_fuel = invalid MalformedChain.descriptor_loop

abbrev pub start_walk : List ℕ → Walk
start_walk visited = record {
  visited = visited;
  spans = [];
  regions = [];
  readable_end = 0;
  writable_end = 0;
}

-- `DriverChain::queue_head_slot`; a chain has a slot for each descriptor, and at least one.
unfoldable pub queue_head_slot : DriverChain → ℕ
queue_head_slot chain = elim (get_elem? chain.slots chain.head) [
  | some slot ↦ slot
  | none ↦ elim chain.slots [ [] ↦ 0 | slot ∷ _ ↦ slot ]
]

-- `DriverChain::descriptor_count` and `validation`.
unfoldable pub chain_descriptor_count : DriverChain → ℕ
chain_descriptor_count chain = length chain.chain_data.descriptors % 2 ^ 16

unfoldable pub validation : DriverChain → Result MalformedChain ChainLayout
unfolding analysis_validation
validation chain = analysis_validation chain.chain_data.analysis

-- The bytes of one side, as `device_readable_len`, `device_writable_len`, the lengths of the source
-- and the sink, and `writable_capacity` compute them.
unfoldable pub side_len : ChainData → Bool → ℕ
unfolding analysis_validation
side_len chain_data writable = elim (analysis_validation chain_data.analysis) [
  | ok layout ↦ if writable then layout.writable_bytes else layout.readable_bytes
  | err _ ↦ 0
]

-- `Descriptor` flags and links as `DriverChain::direct` sets them, from the index on.
unfoldable pub link : ℕ → List Descriptor → List Descriptor
link index [] = []
link index (d ∷ []) = record d { flags = bit_and d.flags virtq_desc_f_write; next = 0 } ∷ []
link index (d ∷ e ∷ ds) =
    record d {
      flags = bit_or (bit_and d.flags virtq_desc_f_write) virtq_desc_f_next;
      next = (index + 1) % 2 ^ 16;
    }
    ∷ link (index + 1) (e ∷ ds)

module _ (reserve : ℕ → Bool) where
  unfoldable pub zeroed_u16_box : ℕ → Result ChainBuildError (List ℕ)
  zeroed_u16_box len = if reserve len then ok (replicate len 0) else err allocation_failed

  -- The analysis beside the marks that it leaves in `visited`.
  unfoldable pub analyze_chain :
      List Descriptor → ℕ → List ℕ → Result ChainBuildError (List ℕ × ChainAnalysis)
  unfolding walk conclude
  analyze_chain descriptors head visited = do
    reject_if (not (reserve (length descriptors))) allocation_failed
    let (w, outcome) = walk (suc (length descriptors)) descriptors head (start_walk visited)
    ok (w.visited, conclude descriptors w outcome)

  -- `DriverChain::raw`.
  unfoldable pub raw : List Descriptor → ℕ → Result ChainBuildError DriverChain
  unfolding zeroed_u16_box analyze_chain
  raw descriptors head = do
    reject_if (length descriptors == 0) empty
    reject_if (ltb max_split_queue_size (length descriptors)) descriptor_count
    slots ← zeroed_u16_box (length descriptors)
    (visited, analysis) ← analyze_chain descriptors head slots
    ok (record {
      chain_data = record { descriptors = descriptors; analysis = analysis };
      slots = visited;
      head = head;
    })

  -- `DriverChain::direct`.
  unfoldable pub direct : List Descriptor → Result ChainBuildError DriverChain
  unfolding link raw validation
  direct descriptors = do
    chain ← raw (link 0 descriptors) 0
    elim (validation chain) [ err error ↦ err (malformed error) | ok _ ↦ ok chain ]

-- `SplitDeviceChain`. Its source and its sink hold the same data and the epoch of its ID.
pub record DeviceChain : Type 0 where
  pub id : ChainId
  pub chain_data : ChainData
  pub max_descriptors : ℕ

-- `SplitDeviceChain::io`, where the shared epoch is `current`: the regions of the chain.
unfoldable pub io : DeviceChain → ℕ → Result (ChainError ByteAccessError) (List ChainRegion)
unfolding analysis_validation
io chain current = do
  reject_if (not (current == chain.id.epoch)) (ChainError.reset_race chain.id.epoch current)
  layout ← elim (analysis_validation chain.chain_data.analysis) [
    | ok layout ↦ ok layout
    | err error ↦ err (ChainError.malformed error)
  ]
  reject_if (ltb chain.max_descriptors layout.descriptor_count)
      (ChainError.malformed MalformedChain.descriptor_count)
  ok (analysis_regions chain.chain_data.analysis)
