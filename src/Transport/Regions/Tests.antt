-- ===== src/Transport/Regions/Tests.antt =====
-- A chain of two readable regions and a writable one.
use virtio_accel.Prelude.{ℕ, ◌≡◌, ◌↔◌, List, [], ◌∷◌, ok, err, arith, refl}
use virtio_accel.Transport.Regions.{
  ChainRegion, ChainLayout, readable, writable, validate_chain_layout, scan_regions, scan_region,
  scan_direction, direction,
}
use virtio_accel.Transport.Regions.Scanned.{Describes, regions_of}
use virtio_accel.Transport.Regions.Laws.{validate_chain_layout-eq-ok}

abbrev regions : List ChainRegion
regions = readable 16 ∷ readable 8 ∷ writable 32 ∷ []

abbrev layout : ChainLayout
layout = record {
  descriptor_count = 3;
  readable_descriptors = 2;
  writable_descriptors = 1;
  readable_bytes = 24;
  writable_bytes = 32;
}

accepts_regions : validate_chain_layout regions 256 ≡ ok layout
unfolding validate_chain_layout scan_regions scan_region scan_direction
accepts_regions = refl

refuses_late_readable : validate_chain_layout (writable 32 ∷ readable 16 ∷ []) 256 ≡ err direction
unfolding validate_chain_layout scan_regions scan_region scan_direction
refuses_late_readable = refl

validate_chain_layout-eq-ok_example :
    (validate_chain_layout regions 256 ≡ ok layout)
    ↔ ((rs : List ℕ) × (ws : List ℕ) × (regions ≡ regions_of rs ws) × Describes layout 256 rs ws)
validate_chain_layout-eq-ok_example = validate_chain_layout-eq-ok regions 256 layout (omega arith)
