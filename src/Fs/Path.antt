-- ===== src/Fs/Path.antt =====
-- fs/fs.c and include/aex/fs/fs.h: paths. A path is the list of its bytes, without the terminator;
-- `heap` is what the block that `fs_to_absolute_path` gets for its result holds before. An empty path,
-- whose last byte would be read before its start, has no trailing slash here.
mod Tests
pub mod Writing
pub mod Walked
pub mod Canonical
use aexkernel.Prelude.{
  ℕ, zero, suc, ◌+◌, ◌-◌, Bool, true, false, Option, none, some, List, [], ◌∷◌, ◌++◌, map, ◌==◌,
  if◌then◌else◌, get_or, set, length, take, drop,
}
use aexkernel.Kernel.Str.{strcmp}

-- A segment that is read ends at a slash or with the path; slashes without one between count once.
abbrev pub end_segment : List ℕ → List (List ℕ) → List (List ℕ)
end_segment [] rest = rest
end_segment (c ∷ segment) rest = (c ∷ segment) ∷ rest

pub segments_from : List ℕ → List ℕ → List (List ℕ)
segments_from segment [] = end_segment segment []
segments_from segment (c ∷ local) = elim (c == b'/') [
  | true ↦ end_segment segment (segments_from [] local)
  | false ↦ segments_from (segment ++ (c ∷ [])) local
]

pub path_count_segments : List ℕ → ℕ
path_count_segments path = length (segments_from [] path)

-- The segments over which `path_walk` goes; the first byte of the path is passed over, and a segment
-- is cut to 255 bytes.
pub path_walk : List ℕ → List (List ℕ)
path_walk path = map (take 255) (segments_from [] (drop 1 path))

-- `_path` and the place of `ptr` in it.
pub record Canon : Type 0 where
  pub path : List ℕ
  pub ptr : ℕ

-- The loop that goes back to the last slash.
pub back : List ℕ → ℕ → ℕ
back mem zero = zero
back mem (suc p) = let rest = back mem p in if get_or mem (suc p) 0 == b'/' then suc p else rest

-- `strcpy` to `_path`.
pub put_text : List ℕ → ℕ → List ℕ → List ℕ
put_text mem p [] = set mem p 0
put_text mem p (x ∷ xs) = put_text (set mem p x) (suc p) xs

abbrev pub dot : List ℕ
dot = b'.' ∷ []

abbrev pub dot_dot : List ℕ
dot_dot = b'.' ∷ b'.' ∷ []

pub walk_segment : Canon → List ℕ → Canon
walk_segment c segment =
    if strcmp segment dot_dot == 0
    then record c { ptr = back c.path c.ptr }
    else if strcmp segment dot == 0
    then c
    else record {
      path = put_text (set c.path c.ptr b'/') (suc c.ptr) segment;
      ptr = suc c.ptr + length segment;
    }

pub walk_segments : Canon → List (List ℕ) → Canon
walk_segments c [] = c
walk_segments c (segment ∷ segments) = walk_segments (walk_segment c segment) segments

abbrev pub ends_in_slash : List ℕ → Bool
ends_in_slash path = get_or path (length path - 1) 0 == b'/'

-- A slash at the end, and a terminator with it only.
abbrev pub finish : Canon → Bool → List ℕ
finish c true = put_text c.path c.ptr (b'/' ∷ [])
finish c false = c.path

abbrev pub joined_path : List ℕ → Option (List ℕ) → List ℕ
joined_path local none = local
joined_path local (some base) = if get_or local 0 0 == b'/' then local else base ++ local

-- `base` is `none` for NULL. The result is the block of `_path`.
pub fs_to_absolute_path : List ℕ → Option (List ℕ) → List ℕ → List ℕ
fs_to_absolute_path local base heap =
    let path = joined_path local base in
    finish (walk_segments (record { path = heap; ptr = 0 }) (path_walk path)) (ends_in_slash path)
