-- ===== src/Service/Targets/Exact.antt =====
-- What `resolve_target` and `_validated_operation` accept
-- (roles/msp_broker/files/broker/service.py), as conditions and not as an order of tests.
use msp_fleet_public.Base.{
  String, true, false, ◌≡◌, ◌≢◌, ◌↔◌, inr, refl, sym, ap, subst, Option, none, some, List, [], ◌∷◌,
  arith, ◌==◌, contains, eq_iff,
}
use msp_fleet_public.Broker.{Broker}
use msp_fleet_public.Failure.{ok}
use msp_fleet_public.Params.{Params, validate_params}
use msp_fleet_public.Plan.{Target}
use msp_fleet_public.Policy.{AdapterPolicy}
use msp_fleet_public.Registry.{
  Operation, Risk, forbidden, registry, get_operation, get_operation_value, is_forbidden,
}
use msp_fleet_public.Registry.Consistent.{name-get_operation}
use msp_fleet_public.Service.Targets.{
  permits, allowed, chosen, by_id_or_name, resolve_text, resolve_target, validated_operation,
}
use msp_fleet_public.Service.Targets.Named.{
  IsNamed, by_id, by_name, listed, listed_of, unlisted, unlisted_of, named, named_of, differ_test,
}
use msp_fleet_public.Store.{inventory_get, inventory_by_name}
use msp_fleet_public.Value.{Value, str, arr, obj, lookup}

-- What is asked for is the name of a registered operation.
pub record IsRegistered (operation : Value) (op : Operation) : Type 0 where
  pub asked : operation ≡ str op.name
  pub entry : lookup op.name registry ≡ some op

IsRegistered-value :
    (v : Value) (op : Operation) → get_operation_value v ≡ ok (some op) → IsRegistered v op
unfolding get_operation_value get_operation
IsRegistered-value (str name) op e =
    let k : get_operation name ≡ some op = cc in
    let same : op.name ≡ name = name-get_operation name op k in
    record {
      asked = ap str (sym same);
      entry = subst (λ n. get_operation n ≡ some op) (sym same) k;
    }
IsRegistered-value (arr vs) op e = cc
IsRegistered-value (obj fs) op e = cc
IsRegistered-value v op e = cc

get_operation_value_of :
    (v : Value) (op : Operation) → IsRegistered v op → get_operation_value v ≡ ok (some op)
unfolding get_operation_value get_operation
get_operation_value_of v op r = rw (r.asked, r.entry) refl

pub forbidden_iff : (r : Risk) → (is_forbidden r ≡ false) ↔ (r ≢ forbidden)
unfolding is_forbidden
forbidden_iff forbidden = (λ h e. cc, λ n. absurd (n refl))
forbidden_iff r = (λ h e. cc, λ n. refl)

module _ {H : Type 0} (b : Broker H) where
  -- The policy enables the adapter and lists the operation there.
  pub record IsListed (adapter operation : String) : Type 0 where
    pub cfg : AdapterPolicy
    pub configured : lookup adapter b.policy.adapters ≡ some cfg
    pub enabled : cfg.enabled ≡ true
    pub lists : contains operation cfg.operations ≡ true

  permits-IsListed :
      (adapter operation : String) (o : Option AdapterPolicy)
      → lookup adapter b.policy.adapters ≡ o
      → permits adapter operation o ≡ ok tt
      → IsListed adapter operation
  permits-IsListed adapter operation none e h = cc
  permits-IsListed adapter operation (some cfg) e h = record {
    cfg = cfg;
    configured = e;
    enabled = ground arith;
    lists = ground arith;
  }

  allowed_of :
      (adapter operation : String)
      → IsListed adapter operation
      → allowed b adapter operation ≡ ok tt
  unfolding allowed
  allowed_of adapter operation l = rw (l.configured, l.enabled, l.lists) refl

  module _ (inventory : List Target) (ref : String) (t : Target) where
    chosen_by_name :
        (l : List Target)
        → inventory_get inventory ref ≡ none
        → inventory_by_name inventory ref ≡ l
        → chosen b ref l ≡ ok t
        → (t.client_id ≡ b.client.client_id) × IsNamed inventory ref t
    chosen_by_name [] e f h = cc
    chosen_by_name (u ∷ []) e f h = (
      ground (arith, eq_iff u.client_id b.client.client_id),
      by_name (unlisted ref inventory e) (named ref t inventory (ground arith)),
    )
    chosen_by_name (u ∷ v ∷ l) e f h = cc

    chosen_IsNamed :
        (o : Option Target)
        → inventory_get inventory ref ≡ o
        → by_id_or_name b inventory ref o ≡ ok t
        → (t.client_id ≡ b.client.client_id) × IsNamed inventory ref t
    chosen_IsNamed none e h = chosen_by_name _ e refl h
    chosen_IsNamed (some u) e h = (
      ground (arith, eq_iff u.client_id b.client.client_id),
      by_id (listed ref t inventory (ground arith)),
    )

    pub resolve_text-IsNamed :
        resolve_text b inventory ref ≡ ok t
        → (t.client_id ≡ b.client.client_id) × IsNamed inventory ref t
    unfolding resolve_text
    resolve_text-IsNamed h = chosen_IsNamed _ refl (ground arith)

    pub resolve_text_full : resolve_text b inventory ref ≡ ok t → ref ≢ ""
    unfolding resolve_text
    resolve_text_full h e = let k = (eq_iff ref "").1 e in cc

    resolve_text_of :
        ref ≢ ""
        → t.client_id ≡ b.client.client_id
        → IsNamed inventory ref t
        → resolve_text b inventory ref ≡ ok t
    unfolding resolve_text
    resolve_text_of full own (by_id e) =
        rw
          (
            differ_test ref "" full,
            listed_of ref t inventory e,
            (eq_iff t.client_id b.client.client_id).1 own,
          )
          refl
    resolve_text_of full own (by_name e f) =
        rw
          (
            differ_test ref "" full,
            unlisted_of ref inventory e,
            named_of ref t inventory f,
            (eq_iff t.client_id b.client.client_id).1 own,
          )
          refl

    -- A reference that is not empty resolves to a target exactly when the target is this client's and
    -- has the reference as its identifier, or, where no entry has that identifier, is the only entry
    -- of any client with that name.
    pub resolve_text_exact :
        ref ≢ ""
        → (resolve_text b inventory ref ≡ ok t)
          ↔ ((t.client_id ≡ b.client.client_id) × IsNamed inventory ref t)
    resolve_text_exact full = (resolve_text-IsNamed, λ h. resolve_text_of full h.0 h.1)

  -- A reference that names a target of the client.
  pub record IsResolved (inventory : List Target) (ref : Value) (t : Target) : Type 0 where
    pub text : String
    pub is_text : ref ≡ str text
    pub not_empty : text ≢ ""
    pub own : t.client_id ≡ b.client.client_id
    pub names : IsNamed inventory text t

  resolve_target-IsResolved :
      (inventory : List Target) (ref : Value) (t : Target)
      → resolve_target b inventory ref ≡ ok t
      → IsResolved inventory ref t
  unfolding resolve_target
  resolve_target-IsResolved inventory (str text) t h =
      let (own, names) = resolve_text-IsNamed inventory text t h in
      record {
        text = text;
        is_text = refl;
        not_empty = resolve_text_full inventory text t h;
        own = own;
        names = names;
      }
  resolve_target-IsResolved inventory v t h = cc

  resolve_target_of :
      (inventory : List Target) (ref : Value) (t : Target)
      → IsResolved inventory ref t
      → resolve_target b inventory ref ≡ ok t
  unfolding resolve_target
  resolve_target_of inventory ref t r =
      rw r.is_text (resolve_text_of inventory r.text t r.not_empty r.own r.names)

  pub record IsValidated (inventory : List Target) (operation ref parameters : Value)
      (op : Operation) (target : Target) (clean : Params) : Type 0 where
    pub known : IsRegistered operation op
    pub permitted : op.risk ≢ forbidden
    pub listed_there : IsListed op.adapter op.name
    pub resolved : IsResolved inventory ref target
    pub handled : target.adapter ≡ op.adapter
    pub fits : contains target.kind op.target_kinds ≡ true
    pub clean_parameters : validate_params op parameters ≡ inr clean

  -- the results of the steps, one after the other
  record Passes (inventory : List Target) (operation ref parameters : Value) (op : Operation)
      (target : Target) (clean : Params) : Type 0 where
    known : get_operation_value operation ≡ ok (some op)
    permitted : is_forbidden op.risk ≡ false
    allows : allowed b op.adapter op.name ≡ ok tt
    resolves : resolve_target b inventory ref ≡ ok target
    handled : (target.adapter == op.adapter) ≡ true
    fits : contains target.kind op.target_kinds ≡ true
    clean_parameters : validate_params op parameters ≡ inr clean

  module _ (inventory : List Target) (operation ref parameters : Value) (op : Operation)
      (target : Target) (clean : Params) where
    validated_operation-Passes :
        validated_operation b inventory operation ref parameters ≡ ok (op, target, clean)
        → Passes inventory operation ref parameters op target clean
    unfolding validated_operation
    validated_operation-Passes h = ground arith

    Passes-validated_operation :
        Passes inventory operation ref parameters op target clean
        → validated_operation b inventory operation ref parameters ≡ ok (op, target, clean)
    unfolding validated_operation
    Passes-validated_operation v = ground arith

    pub validated_operation-IsValidated :
        validated_operation b inventory operation ref parameters ≡ ok (op, target, clean)
        → IsValidated inventory operation ref parameters op target clean
    unfolding allowed
    validated_operation-IsValidated h =
        let p = validated_operation-Passes h in
        record {
          known = IsRegistered-value operation op p.known;
          permitted = (forbidden_iff op.risk).0 p.permitted;
          listed_there = permits-IsListed op.adapter op.name _ refl p.allows;
          resolved = resolve_target-IsResolved inventory ref target p.resolves;
          handled = (eq_iff target.adapter op.adapter).0 p.handled;
          fits = p.fits;
          clean_parameters = p.clean_parameters;
        }

    validated_operation_of :
        IsValidated inventory operation ref parameters op target clean
        → validated_operation b inventory operation ref parameters ≡ ok (op, target, clean)
    validated_operation_of v = Passes-validated_operation (record {
      known = get_operation_value_of operation op v.known;
      permitted = (forbidden_iff op.risk).1 v.permitted;
      allows = allowed_of op.adapter op.name v.listed_there;
      resolves = resolve_target_of inventory ref target v.resolved;
      handled = (eq_iff target.adapter op.adapter).1 v.handled;
      fits = v.fits;
      clean_parameters = v.clean_parameters;
    })

    -- An operation is validated exactly when it is a registered name and not FORBIDDEN, the policy
    -- enables its adapter and lists it there, the reference is a text that is not empty and names a
    -- target of the client, by its identifier or else by its unique name, the target is of that
    -- adapter and of a kind of the operation, and the parameters are valid; the result is that
    -- operation, that target and the validated parameters.
    pub validated_operation_exact :
        (validated_operation b inventory operation ref parameters ≡ ok (op, target, clean))
        ↔ IsValidated inventory operation ref parameters op target clean
    validated_operation_exact = (validated_operation-IsValidated, validated_operation_of)
