-- ===== src/Transport/Regions.antt =====
-- The descriptor metadata of crates/virtio-accel-transport/src/regions.rs: `validate_chain_layout`
-- with its loop, and `ChainLayout`.
mod Scanned
pub mod Laws
mod Tests
use virtio_accel.Prelude.{
  ℕ, ◌+◌, ◌%◌, ◌^◌, ◌≡◌, Bool, true, false, not, ◌||◌, ltb, ◌==◌, if◌then◌else◌, List, [], ◌∷◌,
  length, Option, none, some, Result, ok, err, ◌>>=◌, ◌>>◌, reject_if, ok_or,
}

pub data RegionDirection : Type 0 where
  device_readable device_writable : RegionDirection

pub record ChainRegion : Type 0 where
  pub direction : RegionDirection
  pub bytes : ℕ

-- `ChainRegion::readable` and `ChainRegion::writable`.
abbrev pub readable : ℕ → ChainRegion
readable bytes = record { direction = device_readable; bytes = bytes }

abbrev pub writable : ℕ → ChainRegion
writable bytes = record { direction = device_writable; bytes = bytes }

pub data ChainLayoutError : Type 0 where
  descriptor_count zero_length direction length_overflow port_length_mismatch : ChainLayoutError

pub record ChainLayout : Type 0 where
  pub descriptor_count : ℕ
  pub readable_descriptors : ℕ
  pub writable_descriptors : ℕ
  pub readable_bytes : ℕ
  pub writable_bytes : ℕ

-- `ChainLayout::validate_port_lengths`.
unfoldable pub validate_port_lengths : ChainLayout → ℕ → ℕ → Result ChainLayoutError (Unit {0})
validate_port_lengths layout request_bytes response_bytes = do
  reject_if
      (not (request_bytes == layout.readable_bytes)
        || not (response_bytes == layout.writable_bytes))
      port_length_mismatch
  ok tt

-- The variables of the loop of `validate_chain_layout`.
pub record Scan : Type 0 where
  pub readable_descriptors : ℕ
  pub writable_descriptors : ℕ
  pub readable_bytes : ℕ
  pub writable_bytes : ℕ
  pub saw_writable : Bool

abbrev pub no_scan : Scan
no_scan = record {
  readable_descriptors = 0;
  writable_descriptors = 0;
  readable_bytes = 0;
  writable_bytes = 0;
  saw_writable = false;
}

-- `checked_add(..).ok_or(LengthOverflow)`.
abbrev pub add_length : ℕ → ℕ → Result ChainLayoutError ℕ
add_length a b = if ltb (a + b) (2 ^ 64) then ok (a + b) else err length_overflow

-- The `match` on the direction of one region.
unfoldable pub scan_direction : RegionDirection → ℕ → Scan → Result ChainLayoutError Scan
scan_direction device_readable bytes s = do
  reject_if s.saw_writable direction
  total ← add_length s.readable_bytes bytes
  ok (record s {
    readable_descriptors = (s.readable_descriptors + 1) % 2 ^ 16;
    readable_bytes = total;
  })
scan_direction device_writable bytes s = do
  total ← add_length s.writable_bytes bytes
  ok (record s {
    saw_writable = true;
    writable_descriptors = (s.writable_descriptors + 1) % 2 ^ 16;
    writable_bytes = total;
  })

-- One pass of the loop, and the loop.
unfoldable pub scan_region : ChainRegion → Scan → Result ChainLayoutError Scan
unfolding scan_direction
scan_region region s = do
  reject_if (region.bytes == 0) zero_length
  scan_direction region.direction region.bytes s

unfoldable pub scan_regions : List ChainRegion → Scan → Result ChainLayoutError Scan
unfolding scan_region
scan_regions [] s = ok s
scan_regions (region ∷ regions) s = scan_region region s >>= λ t. scan_regions regions t

unfoldable pub validate_chain_layout : List ChainRegion → ℕ → Result ChainLayoutError ChainLayout
unfolding scan_regions
validate_chain_layout regions max_descriptors = do
  reject_if (ltb (length regions) 2 || ltb max_descriptors (length regions)) descriptor_count
  s ← scan_regions regions no_scan
  reject_if ((s.readable_descriptors == 0) || (s.writable_descriptors == 0)) direction
  ok (record {
    descriptor_count = length regions % 2 ^ 16;
    readable_descriptors = s.readable_descriptors;
    writable_descriptors = s.writable_descriptors;
    readable_bytes = s.readable_bytes;
    writable_bytes = s.writable_bytes;
  })
