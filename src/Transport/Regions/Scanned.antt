-- ===== src/Transport/Regions/Scanned.antt =====
-- The loop of `validate_chain_layout` over readable lengths, then writable lengths.
use virtio_accel.Prelude.{
  ℕ, suc, ◌+◌, ◌%◌, ◌^◌, ◌≤◌, ◌<◌, ◌≡◌, refl, ◌⊎◌, inl, inr, true, false, List, [], ◌∷◌, arith,
  length, All, ok, Result-cases, ap,
}
use virtio_accel.Transport.Regions.{
  ChainRegion, readable, writable, ChainLayout, Scan, scan_region, scan_regions, scan_direction,
}

-- The regions of a chain with these readable lengths and, after them, these writable lengths.
abbrev pub regions_of : List ℕ → List ℕ → List ChainRegion
regions_of [] [] = []
regions_of [] (w ∷ ws) = writable w ∷ regions_of [] ws
regions_of (r ∷ rs) ws = readable r ∷ regions_of rs ws

abbrev pub total : List ℕ → ℕ
total [] = 0
total (n ∷ ns) = n + total ns

-- A chain of these lengths, which the layout describes: the device's limits on descriptors, no
-- empty region, and both totals in a `u64`.
pub record Describes (layout : ChainLayout) (max_descriptors : ℕ) (rs ws : List ℕ) : Type 0 where
  pub some_readable : 0 < length rs
  pub some_writable : 0 < length ws
  pub few : length rs + length ws ≤ max_descriptors
  pub nonzero_readable : All (λ n. 0 < n) rs
  pub nonzero_writable : All (λ n. 0 < n) ws
  pub readable_fits : total rs < 2 ^ 64
  pub writable_fits : total ws < 2 ^ 64
  pub count : layout.descriptor_count ≡ length rs + length ws
  pub readable_count : layout.readable_descriptors ≡ length rs
  pub writable_count : layout.writable_descriptors ≡ length ws
  pub readable_total : layout.readable_bytes ≡ total rs
  pub writable_total : layout.writable_bytes ≡ total ws

pub length-regions_of : (rs ws : List ℕ) → length (regions_of rs ws) ≡ length rs + length ws
length-regions_of [] [] = omega arith
length-regions_of [] (w ∷ ws) = omega (arith, length-regions_of [] ws)
length-regions_of (r ∷ rs) ws = omega (arith, length-regions_of rs ws)

region-cases :
    (region : ChainRegion) → (region ≡ readable region.bytes) ⊎ (region ≡ writable region.bytes)
region-cases region = ground arith

-- What the loop has seen when it ends, started at `s`.
pub record Seen (s : Scan) (regions : List ChainRegion) (t : Scan) : Type 0 where
  pub rs : List ℕ
  pub ws : List ℕ
  pub ordered : regions ≡ regions_of rs ws
  late : s.saw_writable ≡ true → rs ≡ []
  pub nonzero_readable : All (λ n. 0 < n) rs
  pub nonzero_writable : All (λ n. 0 < n) ws
  pub readable_count : t.readable_descriptors ≡ s.readable_descriptors + length rs
  pub writable_count : t.writable_descriptors ≡ s.writable_descriptors + length ws
  pub readable_total : t.readable_bytes ≡ s.readable_bytes + total rs
  pub writable_total : t.writable_bytes ≡ s.writable_bytes + total ws
  pub readable_fits : t.readable_bytes < 2 ^ 64
  pub writable_fits : t.writable_bytes < 2 ^ 64

-- The counters of a scan that has room for `n` more regions.
abbrev Room : Scan → ℕ → Type 0
Room s n =
    (s.readable_descriptors + n < 2 ^ 16)
    × (s.writable_descriptors + n < 2 ^ 16)
    × (s.readable_bytes < 2 ^ 64)
    × (s.writable_bytes < 2 ^ 64)

module _ (bytes : ℕ) (s t : Scan) (n : ℕ) (room : Room s (suc n)) where
  scan_region-readable :
      scan_region (readable bytes) s ≡ ok t
      → (0 < bytes)
        × (s.saw_writable ≡ false)
        × (t ≡ record s {
          readable_descriptors = s.readable_descriptors + 1;
          readable_bytes = s.readable_bytes + bytes;
        })
        × Room t n
  unfolding scan_region scan_direction
  scan_region-readable e = ground arith

  scan_region-writable :
      scan_region (writable bytes) s ≡ ok t
      → (0 < bytes)
        × (t ≡ record s {
          saw_writable = true;
          writable_descriptors = s.writable_descriptors + 1;
          writable_bytes = s.writable_bytes + bytes;
        })
        × Room t n
  unfolding scan_region scan_direction
  scan_region-writable e = ground arith

scan_region-Room :
    (region : ChainRegion) (s t : Scan) (n : ℕ)
    → Room s (suc n)
    → scan_region region s ≡ ok t
    → Room t n
unfolding scan_region scan_direction
scan_region-Room region s t n room e = elim (region-cases region) [
  | inl r ↦ (scan_region-readable region.bytes s t n room (cc (r, e))).3
  | inr w ↦ (scan_region-writable region.bytes s t n room (cc (w, e))).2
]

-- A region in front of those that the rest of the loop has seen.
module _ (region : ChainRegion) (regions : List ChainRegion) (s m t : Scan)
    (room : Room s (suc (length regions))) (q : scan_region region s ≡ ok m) where
  Seen-readable : region ≡ readable region.bytes → Seen m regions t → Seen s (region ∷ regions) t
  Seen-readable r ih =
      let step = scan_region-readable region.bytes s m (length regions) room (cc (r, q)) in
      record {
        rs = region.bytes ∷ ih.rs;
        ws = ih.ws;
        ordered = cc (r, ih.ordered);
        late = λ h. absurd (cc step.1);
        nonzero_readable = (step.0, ih.nonzero_readable);
        nonzero_writable = ih.nonzero_writable;
        readable_count = ground (arith, step);
        writable_count = ground (arith, step);
        readable_total = ground (arith, step);
        writable_total = ground (arith, step);
        readable_fits = ih.readable_fits;
        writable_fits = ih.writable_fits;
      }

  Seen-writable : region ≡ writable region.bytes → Seen m regions t → Seen s (region ∷ regions) t
  Seen-writable w ih =
      let step = scan_region-writable region.bytes s m (length regions) room (cc (w, q)) in
      let none_left : ih.rs ≡ [] = ih.late (ground (arith, step)) in
      record {
        rs = [];
        ws = region.bytes ∷ ih.ws;
        ordered = cc (w, ih.ordered, none_left);
        late = λ h. refl;
        nonzero_readable = tt;
        nonzero_writable = (step.0, ih.nonzero_writable);
        readable_count = ground (arith, step, ap length none_left);
        writable_count = ground (arith, step);
        readable_total = ground (arith, step, ap total none_left);
        writable_total = ground (arith, step);
        readable_fits = ih.readable_fits;
        writable_fits = ih.writable_fits;
      }

pub scan_regions-Seen :
    (regions : List ChainRegion) (s t : Scan)
    → Room s (length regions)
    → scan_regions regions s ≡ ok t
    → Seen s regions t
unfolding scan_regions
scan_regions-Seen [] s t room e = record {
  rs = [];
  ws = [];
  ordered = refl;
  late = λ h. refl;
  nonzero_readable = tt;
  nonzero_writable = tt;
  readable_count = ground arith;
  writable_count = ground arith;
  readable_total = ground arith;
  writable_total = ground arith;
  readable_fits = ground arith;
  writable_fits = ground arith;
}
scan_regions-Seen (region ∷ regions) s t room e = elim (Result-cases (scan_region region s)) [
  | inr (e', q) ↦ absurd (ground arith)
  | inl (m, q) ↦ elim (region-cases region) [
    | inl r ↦ Seen-readable region regions s m t room q r (
        scan_regions-Seen regions m t (scan_region-Room region s m (length regions) room q)
          (ground arith))
    | inr w ↦ Seen-writable region regions s m t room q w (
        scan_regions-Seen regions m t (scan_region-Room region s m (length regions) room q)
          (ground arith))
  ]
]

-- The loop over a chain in order, from a scan that has room for it.
module _ (s : Scan) where
  abbrev scan_writable : List ℕ → Scan
  scan_writable [] = s
  scan_writable (w ∷ ws) = record s {
    saw_writable = true;
    writable_descriptors = s.writable_descriptors + length (w ∷ ws);
    writable_bytes = s.writable_bytes + total (w ∷ ws);
  }

pub scan_regions-writable :
    (ws : List ℕ) (s : Scan)
    → s.writable_descriptors + length ws < 2 ^ 16
    → s.writable_bytes + total ws < 2 ^ 64
    → All (λ n. 0 < n) ws
    → scan_regions (regions_of [] ws) s ≡ ok (scan_writable s ws)
unfolding scan_regions scan_region scan_direction
scan_regions-writable [] s room fits nonzero = refl
scan_regions-writable (w ∷ []) s room fits nonzero = ground arith
scan_regions-writable (w ∷ v ∷ ws) s room fits nonzero = ground (
  arith,
  scan_regions-writable (v ∷ ws) (record s {
    saw_writable = true;
    writable_descriptors = (s.writable_descriptors + 1) % 2 ^ 16;
    writable_bytes = s.writable_bytes + w;
  }),
)

pub scan_regions-readable :
    (rs ws : List ℕ) (s : Scan)
    → s.saw_writable ≡ false
    → s.readable_descriptors + length rs < 2 ^ 16
    → s.readable_bytes + total rs < 2 ^ 64
    → All (λ n. 0 < n) rs
    → scan_regions (regions_of rs ws) s
      ≡ scan_regions (regions_of [] ws) (record s {
        readable_descriptors = s.readable_descriptors + length rs;
        readable_bytes = s.readable_bytes + total rs;
      })
unfolding scan_regions scan_region scan_direction
scan_regions-readable [] ws s before room fits nonzero =
    ap (scan_regions (regions_of [] ws)) (ground arith)
scan_regions-readable (r ∷ rs) ws s before room fits nonzero = ground (
  arith,
  scan_regions-readable rs ws (record s {
    readable_descriptors = (s.readable_descriptors + 1) % 2 ^ 16;
    readable_bytes = s.readable_bytes + r;
  }),
)
