-- ===== src/Fs/Path/Tests.antt =====
-- Paths: a canonical one, and what becomes of `..` at the end and twice in a row.
use aexkernel.Prelude.{
  ℕ, ◌≡◌, refl, none, some, List, [], ◌∷◌, ◌++◌, get_or, length, take, replicate, arith,
}
use aexkernel.Kernel.Num.{codes}
use aexkernel.Kernel.Str.{strcmp}
use aexkernel.Fs.Path.{
  segments_from, path_walk, walk_segment, walk_segments, back, put_text, fs_to_absolute_path,
}
use aexkernel.Fs.Path.Walked.{joined, no_up}
use aexkernel.Fs.Path.Canonical.{canonical, fs_to_absolute_path_lem}

abbrev local : List ℕ
local = codes "x/.//yz/"

abbrev base : List ℕ
base = codes "/a/"

abbrev block : List ℕ
block = fs_to_absolute_path local (some base) (replicate 12 7)

fs_to_absolute_path_lem_example :
    (take (length (canonical (base ++ local))) block ≡ canonical (base ++ local))
    × (get_or block (length (canonical (base ++ local))) 1 ≡ 0)
unfolding strcmp joined no_up
fs_to_absolute_path_lem_example =
    fs_to_absolute_path_lem local (some base) (replicate 12 7) refl refl refl (omega arith)

canonical_path : canonical (base ++ local) ≡ codes "/a/x/yz/"
unfolding strcmp joined
canonical_path = refl

-- A segment `..` at the end takes nothing away.
up_at_end :
    take 5 (fs_to_absolute_path (codes "/a/b/..") none (replicate 8 0)) ≡ codes "/a/b" ++ (0 ∷ [])
unfolding fs_to_absolute_path walk_segments walk_segment back put_text segments_from path_walk
    strcmp
up_at_end = refl

-- The second of two takes nothing away either.
up_twice :
    take 5 (fs_to_absolute_path (codes "/a/b/../../c") none (replicate 13 0))
    ≡ codes "/a/c" ++ (0 ∷ [])
unfolding fs_to_absolute_path walk_segments walk_segment back put_text segments_from path_walk
    strcmp
up_twice = refl

-- Without a base and a slash at the start, the first byte is lost.
first_byte_lost :
    take 4 (fs_to_absolute_path (codes "abc") none (replicate 4 0)) ≡ codes "/bc" ++ (0 ∷ [])
unfolding fs_to_absolute_path walk_segments walk_segment back put_text segments_from path_walk
    strcmp
first_byte_lost = refl
