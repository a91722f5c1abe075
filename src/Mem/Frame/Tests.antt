-- ===== src/Mem/Frame/Tests.antt =====
-- The frame allocator's theorems at a table of two pieces with two frames each.
use aexkernel.Prelude.{◌≡◌, ◌⊎◌, refl, true, false, [], ◌∷◌, arith}
use aexkernel.Bits.{bit}
use aexkernel.Mem.Frame.{Frames, ok, kfalloc, kffree}
use aexkernel.Mem.Frame.Alloc.{IsValid, Put, IsAddressed, kfalloc_lem, kffree_lem}
use aexkernel.Mem.Frame.Scan.{Allocated, NoRun, kfcalloc_lem}

-- The first and the last frame are taken.
abbrev frames : Frames
frames = record {
  pieces =
      record { start = 0x1000; usable = 2; bitmap = 1 ∷ [] }
      ∷ record { start = 0x8000; usable = 2; bitmap = 2 ∷ [] }
      ∷ [];
  frames_used = 2;
  frames_possible = 4;
}

frames-IsValid : IsValid frames
unfolding bit
frames-IsValid = record {
  sized = (omega arith, (omega arith, tt));
  all = refl;
  small = omega arith;
  counted = refl;
}

frames-IsAddressed : IsAddressed frames.pieces
frames-IsAddressed = ((omega arith, omega arith), ((omega arith, omega arith), tt))

kfalloc_lem_example : (fr' : Frames) × (kfalloc frames 3 ≡ ok (0x9000, fr')) × Put true frames 3 fr'
kfalloc_lem_example = kfalloc_lem frames 3 frames-IsValid frames-IsAddressed (omega arith)

kffree_lem_example : (fr' : Frames) × (kffree frames 3 ≡ ok (true, fr')) × Put false frames 3 fr'
kffree_lem_example = kffree_lem frames 3 frames-IsValid (omega arith)

kfcalloc_lem_example : Allocated frames 2 ⊎ NoRun frames 2
kfcalloc_lem_example = kfcalloc_lem frames 2 frames-IsValid (omega arith)
