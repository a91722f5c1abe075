-- ===== src/Kernel/Hook/Tests.antt =====
-- The hooks' theorems at a table with one hook.
use aexkernel.Prelude.{
  ℕ, ◌+◌, ◌*◌, ◌≤◌, ◌≡◌, refl, List, [], ◌∷◌, ◌++◌, ◌==◌, if◌then◌else◌, get_or, set, replicate,
  arith,
}
use aexkernel.Kernel.Str.{strlen}
use aexkernel.Kernel.Str.Compare.{text_at, strlen-text_at}
use aexkernel.Kernel.Hook.{HookFunc, hook_add, hook_remove, invoke_all}
use aexkernel.Kernel.Hook.Calls.{IsAbsent, hook_remove-hook_add}

abbrev adds : ℕ → ℕ → ℕ
adds f w = 10 * w + f

abbrev hooks : List (List HookFunc)
hooks = set (replicate 64 []) 1 (record { name = b'a' ∷ 0 ∷ []; func = 3 } ∷ [])

abbrev name : List ℕ
name = b'b' ∷ b'c' ∷ 0 ∷ []

name_fits : strlen name ≤ 47
name_fits = omega (arith, strlen-text_at name)

absent : IsAbsent (get_or hooks 1 []) name
absent = (λ e. ground arith, tt)

hook_remove-hook_add_example :
    (h : HookFunc) × (h.func ≡ 4)
    × (text_at h.name ≡ text_at name)
    × ((j : ℕ)
        → get_or (hook_add hooks 1 name 4) j []
          ≡ (if 1 == j then get_or hooks 1 [] ++ (h ∷ []) else get_or hooks j []))
    × (hook_remove (hook_add hooks 1 name 4) 1 name ≡ hooks)
hook_remove-hook_add_example =
    hook_remove-hook_add hooks 1 name 4 (omega arith) refl name_fits absent

adds_twice : invoke_all (λ f w. (0, adds f w)) (get_or hooks 1 []) 2 ≡ 23
unfolding invoke_all
adds_twice = refl
