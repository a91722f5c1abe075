-- ===== src/Kernel/Hook.antt =====
-- kernel/hook.c: the functions that are called at an event of the kernel, in chains under ids. A
-- function is its address, and `func` runs it on the state `W` that it changes: its result, a pointer,
-- and the state. An id is a 32-bit pattern, so the test against MAX_HOOKS covers the
-- negative ones. A cursor of `hook_invoke_advance` is the rest of a chain, `[]` for NULL. `kmalloc`
-- is taken to succeed.
mod Tests
pub mod Names
pub mod Calls
use aexkernel.Prelude.{
  ℕ, zero, suc, Bool, true, false, Option, none, some, List, [], ◌∷◌, ltb, leb, ◌==◌, if◌then◌else◌,
  get_or, set, replicate,
}
use aexkernel.Kernel.Str.{strcmp, strcpy, strlen}

pub record HookFunc : Type 0 where
  pub name : List ℕ
  pub func : ℕ

abbrev pub max_hooks : ℕ
max_hooks = 64

-- The name of a new hook: a copy into 48 bytes of zero, of at most 47 bytes.
pub kept_name : List ℕ → List ℕ
kept_name name = strcpy (replicate 48 0) (if ltb 47 (strlen name) then set name 47 0 else name) 0

-- The chain with a hook linked behind its last one.
pub linked : List HookFunc → HookFunc → List HookFunc
linked [] h = h ∷ []
linked (x ∷ xs) h = x ∷ linked xs h

pub hook_add : List (List HookFunc) → ℕ → List ℕ → ℕ → List (List HookFunc)
hook_add hooks id name f =
    if leb max_hooks id
    then hooks
    else set hooks id (linked (get_or hooks id []) (record { name = kept_name name; func = f }))

-- The chain without the first hook of a name.
pub unlinked : List HookFunc → List ℕ → List HookFunc
unlinked [] name = []
unlinked (x ∷ xs) name =
    let rest = unlinked xs name in if strcmp x.name name == 0 then xs else x ∷ rest

pub hook_remove : List (List HookFunc) → ℕ → List ℕ → List (List HookFunc)
hook_remove hooks id name =
    if leb max_hooks id then hooks else set hooks id (unlinked (get_or hooks id []) name)

-- The cursor that `hook_first` gives. It reads `hooks` outside its bounds for an id out of range, since
-- nothing returns after the test: that is `none`.
pub hook_first : List (List HookFunc) → ℕ → Option (List HookFunc)
hook_first hooks id = if leb max_hooks id then none else some (get_or hooks id [])

module _ {W : Type 0} (func : ℕ → W → ℕ × W) where
  -- The loop of `hook_invoke`, which drops the results.
  pub invoke_all : List HookFunc → W → W
  invoke_all [] w = w
  invoke_all (h ∷ hs) w = invoke_all hs (func h.func w).1

  pub hook_invoke : List (List HookFunc) → ℕ → W → W
  hook_invoke hooks id w = if leb max_hooks id then w else invoke_all (get_or hooks id []) w

  -- The call of the hook at a cursor, which is moved on. An id whose chain is empty calls nothing and
  -- gives NULL.
  pub call_at : List HookFunc → W → List HookFunc × (ℕ × W)
  call_at [] w = ([], (0, w))
  call_at (h ∷ hs) w = (hs, func h.func w)

  -- A cursor that is NULL starts again with the first hook.
  pub from_start : List HookFunc → List HookFunc → List HookFunc
  from_start chain [] = chain
  from_start chain (h ∷ hs) = h ∷ hs

  pub hook_invoke_advance : List (List HookFunc) → ℕ → List HookFunc → W → List HookFunc × (ℕ × W)
  hook_invoke_advance hooks id cursor w = elim (get_or hooks id []) [
    | [] ↦ (cursor, (0, w))
    | h ∷ hs ↦ if leb max_hooks id then (cursor, (0, w)) else call_at (from_start (h ∷ hs) cursor) w
  ]
