-- ===== src/Registry/Consistent.antt =====
-- Facts that hold of every entry of the registry, by evaluation over the table
-- (roles/msp_broker/files/broker/model.py).
use msp_fleet_public.Base.{
  String, Bool, true, ◌≡◌, refl, some, List, [], ◌∷◌, arith, all, ◌==◌, eq_iff,
}
use msp_fleet_public.Registry.{Operation, registry, get_operation}
use msp_fleet_public.Value.{lookup}

-- What every entry satisfies, the entry that is found satisfies under the name that was looked up.
found_all :
    {V : Type 0} (p : String → V → Bool) (l : List (String × V)) (name : String) (v : V)
    → all (λ e. p e.0 e.1) l ≡ true
    → lookup name l ≡ some v
    → p name v ≡ true
found_all p [] name v h e = cc
found_all p ((j, w) ∷ l) name v h e = ground (arith, found_all p l name v, eq_iff j name)

-- The operation that a lookup finds has the name that was looked up.
pub name-get_operation :
    (name : String) (op : Operation) → get_operation name ≡ some op → op.name ≡ name
unfolding get_operation registry
name-get_operation name op e =
    (eq_iff op.name name).0 (found_all (λ n o. o.name == n) registry name op refl e)
