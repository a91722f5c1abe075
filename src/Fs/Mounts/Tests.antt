-- ===== src/Fs/Mounts/Tests.antt =====
-- fs_get_mount with a file system at "/" and one at "/d/".
use aexkernel.Prelude.{ℕ, ◌≡◌, ◌⊎◌, refl, Option, some, List, [], ◌∷◌}
use aexkernel.Rc.Array.{Cell, fresh}
use aexkernel.Fs.Types.{Mount, ok}
use aexkernel.Kernel.Str.{memcmp, memcmp_from, strlen}
use aexkernel.Fs.Mounts.{choose, consider, new_path, answer, fs_get_mount}
use aexkernel.Fs.Mounts.Choice.{NoMount, BestMount, fs_get_mount-longest}

abbrev root : Mount
root = record { path = b'/' ∷ []; dev_id = 0; private_data = 0; fs = 0 }

abbrev devices : Mount
devices = record { path = b'/' ∷ b'd' ∷ b'/' ∷ []; dev_id = 1; private_data = 0; fs = 1 }

abbrev mounts : List (Option (Cell Mount))
mounts = some (fresh root) ∷ some (fresh devices) ∷ []

abbrev path : List ℕ
path = b'/' ∷ b'd' ∷ b'/' ∷ b'a' ∷ []

fs_get_mount-longest_example : NoMount mounts path ⊎ BestMount mounts path
fs_get_mount-longest_example = fs_get_mount-longest mounts path (refl, (refl, tt))

-- With the root mount alone a path resolves to that mount and to itself.
pub at_root :
    fs_get_mount (some (fresh root) ∷ []) (b'/' ∷ b'a' ∷ []) ≡ ok (some (0, b'/' ∷ b'a' ∷ []))
unfolding fs_get_mount choose consider answer new_path memcmp memcmp_from strlen
at_root = refl
