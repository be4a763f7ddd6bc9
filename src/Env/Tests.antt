-- ===== src/Env/Tests.antt =====
-- Runs of the scopes, and the scopes theorem at a concrete chain.
use gnata.Base.{arith, ◌≡◌, refl, ℕ, List, [], ◌∷◌, some, Bytes, true}
use gnata.Env.{Environment, no_bindings, lookup_variable, bound_plain_array, new_child_environment}
use gnata.Env.Refine.{Op, bind, mark, run_scope, IsValid}
use gnata.Env.Run.{lookup-run_scope}

abbrev name_a : Bytes
name_a = b'a' ∷ []

abbrev name_b : Bytes
name_b = b'b' ∷ []

abbrev name_c : Bytes
name_c = b'c' ∷ []

-- three bindings spill, with the mark of the first; the last rebinding clears that of the second
abbrev bindings_ops : List (Op ℕ)
bindings_ops =
    bind name_a 1 ∷ mark name_a ∷ bind name_b 2 ∷ mark name_b ∷ bind name_c 3 ∷ bind name_b 4 ∷ []

abbrev outer_scope : Environment ℕ
outer_scope = run_scope (bind name_c 9 ∷ []) no_bindings ∷ []

outer_lookup : lookup_variable name_c (new_child_environment outer_scope) ≡ some 9
unfolding lookup_variable gnata.Env.lookup_direct gnata.Env.lookup_in gnata.Env.find_slot
    gnata.Env.bind_scope gnata.Env.bind_in gnata.Env.bind_inline gnata.Env.rebind
    new_child_environment
outer_lookup = refl

lookup-run_scope_example :
    (lookup_variable name_a (run_scope bindings_ops no_bindings ∷ outer_scope) ≡ some 1)
    × (bound_plain_array name_a (run_scope bindings_ops no_bindings ∷ outer_scope) ≡ true)
    × IsValid (run_scope bindings_ops (no_bindings {V = ℕ}))
lookup-run_scope_example =
    lookup-run_scope bindings_ops no_bindings outer_scope name_a (omega arith, tt, refl)
