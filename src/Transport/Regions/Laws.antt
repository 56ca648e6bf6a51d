-- ===== src/Transport/Regions/Laws.antt =====
-- What `validate_chain_layout` accepts: readable lengths, then writable lengths.
use virtio_accel.Prelude.{
  ℕ, ◌+◌, ◌^◌, ◌≤◌, ◌<◌, ◌≡◌, refl, ◌↔◌, inl, inr, List, [], ◌∷◌, arith, length, ok, Result-cases,
  ap,
}
use virtio_accel.Transport.Regions.{
  ChainRegion, ChainLayout, Scan, no_scan, scan_regions, validate_chain_layout,
}
use virtio_accel.Transport.Regions.Scanned.{
  regions_of, total, Describes, length-regions_of, scan_regions-Seen, scan_regions-writable,
  scan_regions-readable,
}

module _ (regions : List ChainRegion) (max_descriptors : ℕ) (layout : ChainLayout)
    (small : max_descriptors < 2 ^ 16) where
  accepted :
      validate_chain_layout regions max_descriptors ≡ ok layout
      → (t : Scan) × (scan_regions regions no_scan ≡ ok t)
        × (2 ≤ length regions)
        × (length regions ≤ max_descriptors)
        × (0 < t.readable_descriptors)
        × (0 < t.writable_descriptors)
        × (layout ≡ record {
          descriptor_count = length regions;
          readable_descriptors = t.readable_descriptors;
          writable_descriptors = t.writable_descriptors;
          readable_bytes = t.readable_bytes;
          writable_bytes = t.writable_bytes;
        })
  unfolding validate_chain_layout
  accepted e = elim (Result-cases (scan_regions regions no_scan)) [
    | inr (e', q) ↦ absurd (ground arith)
    | inl (t, q) ↦ (t, q, ground arith, ground arith, ground arith, ground arith, ground arith)
  ]

  validate_chain_layout-Describes :
      validate_chain_layout regions max_descriptors ≡ ok layout
      → (rs : List ℕ) × (ws : List ℕ) × (regions ≡ regions_of rs ws)
        × Describes layout max_descriptors rs ws
  validate_chain_layout-Describes e =
      let found = accepted e in
      let seen = scan_regions-Seen regions no_scan found.0 (omega (arith, found)) found.1 in
      let total_length = length-regions_of seen.rs seen.ws in
      (
        seen.rs,
        seen.ws,
        seen.ordered,
        record {
          some_readable = ground (arith, found, seen);
          some_writable = ground (arith, found, seen);
          few = ground (arith, found, ap length seen.ordered);
          nonzero_readable = seen.nonzero_readable;
          nonzero_writable = seen.nonzero_writable;
          readable_fits = ground (arith, seen);
          writable_fits = ground (arith, seen);
          count = ground (arith, found, ap length seen.ordered);
          readable_count = ground (arith, found, seen);
          writable_count = ground (arith, found, seen);
          readable_total = ground (arith, found, seen);
          writable_total = ground (arith, found, seen);
        },
      )

  Describes-validate_chain_layout :
      (rs ws : List ℕ)
      → regions ≡ regions_of rs ws
      → Describes layout max_descriptors rs ws
      → validate_chain_layout regions max_descriptors ≡ ok layout
  unfolding validate_chain_layout
  Describes-validate_chain_layout rs [] ordered d = absurd (omega (arith, d.some_writable))
  Describes-validate_chain_layout rs (w ∷ ws) ordered d = ground (
    arith,
    length-regions_of rs (w ∷ ws),
    scan_regions-readable rs (w ∷ ws) no_scan refl (omega arith) (omega arith) d.nonzero_readable,
    scan_regions-writable (w ∷ ws)
        (record no_scan { readable_descriptors = 0 + length rs; readable_bytes = 0 + total rs })
        (omega arith) (omega arith) d.nonzero_writable,
  )

-- `validate_chain_layout` accepts a chain with a layout exactly if the chain is some nonzero readable
-- regions and after them some nonzero writable ones, as many as allowed and each side's bytes in a
-- `u64`, and the layout holds their numbers and totals; the limit is a `u16`.
pub validate_chain_layout-eq-ok :
    (regions : List ChainRegion) (max_descriptors : ℕ) (layout : ChainLayout)
    → max_descriptors < 2 ^ 16
    → (validate_chain_layout regions max_descriptors ≡ ok layout) ↔ (
        (rs : List ℕ) × (ws : List ℕ) × (regions ≡ regions_of rs ws)
        × Describes layout max_descriptors rs ws)
validate_chain_layout-eq-ok regions max_descriptors layout small = (
  validate_chain_layout-Describes regions max_descriptors layout small,
  λ d. Describes-validate_chain_layout regions max_descriptors layout small d.0 d.1 d.2 d.3,
)
