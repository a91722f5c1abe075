-- ===== src/Kernel/Hook/Calls.antt =====
-- What adding and removing hooks does to the calls of an id.
use aexkernel.Prelude.{
  ℕ, zero, suc, ◌<◌, ◌≤◌, ◌≡◌, refl, ap, ◌∙◌, inl, inr, Bool, true, false, List, [], ◌∷◌, ◌++◌,
  ◌==◌, leb, if◌then◌else◌, Bool-cases, ==_iff, get_or, get_or-set, get_or-set_if, set, length,
  arith,
}
use aexkernel.Kernel.Str.{strcmp, strlen}
use aexkernel.Kernel.Str.Compare.{text_at, strcmp_iff}
use aexkernel.Kernel.Hook.{
  HookFunc, max_hooks, kept_name, linked, hook_add, unlinked, hook_remove, invoke_all, hook_invoke,
}
use aexkernel.Kernel.Hook.Names.{kept_name-text_at}

-- No hook of the chain is kept under the name.
abbrev pub IsAbsent : List HookFunc → List ℕ → Type 0
IsAbsent [] name = Unit
IsAbsent (h ∷ hs) name = (¬ (text_at h.name ≡ text_at name)) × IsAbsent hs name

unlinked-linked :
    (chain : List HookFunc) (name : List ℕ) (h : HookFunc)
    → IsAbsent chain name
    → text_at h.name ≡ text_at name
    → unlinked (linked chain h) name ≡ chain
unfolding unlinked linked
unlinked-linked [] name h a e = rw ((strcmp_iff h.name name).1 e)
unlinked-linked (x ∷ xs) name h a e = rw other (ap (λ r. x ∷ r) (unlinked-linked xs name h a.1 e))
  where
    other : (strcmp x.name name == 0) ≡ false
    other = elim (Bool-cases (strcmp x.name name == 0)) [
      | inl z ↦ absurd (a.0 ((strcmp_iff x.name name).0 ((==_iff (strcmp x.name name) 0).0 z)))
      | inr n ↦ n
    ]

set_twice :
    (hooks : List (List HookFunc)) (i : ℕ) (c : List HookFunc)
    → i < length hooks
    → set (set hooks i c) i (get_or hooks i []) ≡ hooks
set_twice [] i c h = refl
set_twice (x ∷ xs) zero c h = refl
set_twice (x ∷ xs) (suc i) c h = ap (λ r. x ∷ r) (set_twice xs i c (omega arith))

linked-append : (chain : List HookFunc) (h : HookFunc) → linked chain h ≡ chain ++ (h ∷ [])
unfolding linked
linked-append [] h = refl
linked-append (x ∷ xs) h = ap (λ r. x ∷ r) (linked-append xs h)

-- Under an id in range, `hook_add` of a name of at most 47 bytes that no hook of the id has puts one
-- hook behind those of the id, with the function and the name, and changes no other id's chain;
-- `hook_remove` of the name then gives the hooks as they were.
pub hook_remove-hook_add :
    (hooks : List (List HookFunc)) (id : ℕ) (name : List ℕ) (f : ℕ)
    → id < max_hooks
    → length hooks ≡ max_hooks
    → strlen name ≤ 47
    → IsAbsent (get_or hooks id []) name
    → (h : HookFunc) × (h.func ≡ f)
      × (text_at h.name ≡ text_at name)
      × ((j : ℕ)
          → get_or (hook_add hooks id name f) j []
            ≡ (if id == j then get_or hooks id [] ++ (h ∷ []) else get_or hooks j []))
      × (hook_remove (hook_add hooks id name f) id name ≡ hooks)
unfolding hook_remove hook_add
hook_remove-hook_add hooks id name f h l s a = rw in_range (
  new,
  refl,
  kept_name-text_at name s,
  (λ j.
      get_or-set_if hooks id j chain [] (omega arith)
      ∙ ap (λ c. if id == j then c else get_or hooks j [])
          (linked-append (get_or hooks id []) new)),
  ap (λ c. set (set hooks id chain) id (unlinked c name)) at_id
      ∙ ap (set (set hooks id chain) id)
          (unlinked-linked (get_or hooks id []) name new a (kept_name-text_at name s))
      ∙ set_twice hooks id chain (omega arith),
)
  where
    in_range : leb max_hooks id ≡ false
    in_range = ground arith

    new : HookFunc
    new = record { name = kept_name name; func = f }

    chain : List HookFunc
    chain = linked (get_or hooks id []) new

    at_id : get_or (set hooks id chain) id [] ≡ chain
    at_id = get_or-set hooks id id chain [] (omega arith) ∙ ground arith

module _ {W : Type 0} (func : ℕ → W → ℕ × W) where
  invoke_all-linked :
      (chain : List HookFunc) (h : HookFunc) (w : W)
      → invoke_all func (linked chain h) w ≡ (func h.func (invoke_all func chain w)).1
  unfolding invoke_all linked
  invoke_all-linked [] h w = refl
  invoke_all-linked (x ∷ xs) h w = invoke_all-linked xs h (func x.func w).1

  invoke_either :
      (w : W) (b : Bool) (p q : List HookFunc) (u v : W)
      → (b ≡ true → invoke_all func p w ≡ u)
      → (b ≡ false → invoke_all func q w ≡ v)
      → invoke_all func (if b then p else q) w ≡ (if b then u else v)
  invoke_either w true p q u v f g = f refl
  invoke_either w false p q u v f g = g refl

  -- After `hook_add` of a function under an id in range, invoking the id calls what it called before,
  -- in that order, and the function last; invoking another id in range calls what it called before.
  pub hook_invoke-hook_add :
      (hooks : List (List HookFunc)) (id j : ℕ) (name : List ℕ) (f : ℕ) (w : W)
      → id < max_hooks
      → j < max_hooks
      → length hooks ≡ max_hooks
      → hook_invoke func (hook_add hooks id name f) j w
        ≡ (if id == j then (func f (hook_invoke func hooks j w)).1 else hook_invoke func hooks j w)
  unfolding hook_invoke hook_add
  hook_invoke-hook_add hooks id j name f w h k l =
      rw (in_range id h, in_range j k)
        (ap (λ c. invoke_all func c w) chains
          ∙ invoke_either w (id == j) _ _ _ _
              (λ e.
                invoke_all-linked (get_or hooks id []) new w
                ∙ ap (λ i. (func f (invoke_all func (get_or hooks i []) w)).1) ((==_iff id j).0 e))
              (λ _. refl))
    where
      in_range : (i : ℕ) → i < max_hooks → leb max_hooks i ≡ false
      in_range i p = ground arith

      new : HookFunc
      new = record { name = kept_name name; func = f }

      chains :
          get_or (set hooks id (linked (get_or hooks id []) new)) j []
          ≡ (if id == j then linked (get_or hooks id []) new else get_or hooks j [])
      chains =
          get_or-set hooks id j (linked (get_or hooks id []) new) [] (omega arith) ∙ ground arith
