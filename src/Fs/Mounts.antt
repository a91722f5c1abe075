-- ===== src/Fs/Mounts.antt =====
-- fs_get_mount of fs/fs.c: the mount whose path is the longest prefix of a path. Taking and giving
-- back a mount's reference, as the loop does for each mount, leaves the table as it was
-- (`Rc.Array.Laws`), so the table is only read here.
pub mod Tests
pub mod Choice
use aexkernel.Prelude.{
  ℕ, zero, suc, ◌-◌, Bool, true, false, ◌&&◌, Option, none, some, List, [], ◌∷◌, ltb, leb, ◌==◌,
  if◌then◌else◌, get_or, drop,
}
use aexkernel.Kernel.Str.{memcmp, strlen}
use aexkernel.Rc.Array.{Cell, present_from}
use aexkernel.Fs.Types.{Mount, Out, ok, fault, and_then}

-- `sel_id`, `none` for -ENOENT, and `spec_len`.
pub record Best : Type 0 where
  pub sel_id : Option ℕ
  pub spec_len : ℕ

-- A mount's path ends in a slash, which does not count.
abbrev pub path_len : Mount → ℕ
path_len m = strlen m.path - 1

-- The length of an empty mount path is -1, which is below every `spec_len`: it is never chosen.
abbrev pub covers : Mount → List ℕ → Bool
covers m path = ltb 0 (strlen m.path) && memcmp m.path path (path_len m) == 0

pub consider : Mount → List ℕ → ℕ → Best → Best
consider m path id best =
    if covers m path && leb best.spec_len (path_len m)
    then record { sel_id = some id; spec_len = path_len m }
    else best

-- The rounds of the loop from slot `id` on. A slot that `rcparray_get` does not give is a NULL mount.
pub choose : List (Option (Cell Mount)) → List ℕ → ℕ → Best → Out Best
choose [] path id best = ok best
choose (none ∷ xs) path id best = if present_from xs 0 then fault else ok best
choose (some c ∷ xs) path id best =
    let rest = choose xs path (suc id) (consider c.value path id best) in
    if c.present then rest else if present_from xs 0 then fault else ok best

abbrev pub slash : List ℕ
slash = b'/' ∷ []

new_path : List ℕ → ℕ → List ℕ
new_path path spec_len = if get_or path spec_len 0 == b'/' then drop spec_len path else slash

answer : List ℕ → Best → Option (ℕ × List ℕ)
answer path best = elim best.sel_id [
  | none ↦ none
  | some id ↦ some (id, new_path path best.spec_len)
]

-- `none` is -ENOENT; else the mount's id, and the path inside the mount.
pub fs_get_mount : List (Option (Cell Mount)) → List ℕ → Out (Option (ℕ × List ℕ))
fs_get_mount mounts path =
    and_then (choose mounts path 0 (record { sel_id = none; spec_len = 0 }))
      (λ best. ok (answer path best))
