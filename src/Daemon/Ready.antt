-- ===== src/Daemon/Ready.antt =====
-- What a service that the daemon built satisfies (roles/msp_broker/files/broker/daemon.py).
use msp_fleet_public.Base.{
  all, ◌≤◌, String, Bool, true, false, not, ◌≡◌, refl, sym, ap, subst, ◌++◌, arith, eq_iff,
}
use msp_fleet_public.Adapter.{Adapter}
use msp_fleet_public.Broker.{Broker, World}
use msp_fleet_public.Config.{key_match}
use msp_fleet_public.Config.ClientConf.{load_client}
use msp_fleet_public.Config.ClientConf.Pairs.{load_client-match}
use msp_fleet_public.Config.PolicyFile.{load_policy}
use msp_fleet_public.Config.PolicyFile.Bounds.{load_policy-IsBounded}
use msp_fleet_public.Config.PolicyView.{policy_of}
use msp_fleet_public.Daemon.{
  Setup, is_same_client, entry_if, adapters_for, service_of, build_service,
}
use msp_fleet_public.Exec.{Exec}
use msp_fleet_public.Exec.Rules.{
  Post, Triple, Triple-lift, Triple-refuse_if, Triple-bind, Triple-pure,
}
use msp_fleet_public.Failure.{Result, ok, err}
use msp_fleet_public.Kinds.{codes}
use msp_fleet_public.Plan.{Client}
use msp_fleet_public.Policy.{is_enabled}
use msp_fleet_public.Value.{Value, str, Fields}

-- The broker serves the client that its policy names, a proposal lives between 30 and 3600 seconds,
-- and every adapter that it has is one that the policy enables.
pub record IsReady {H : Type 0} (b : Broker H) : Type 0 where
  pub named : b.policy.client_id ≡ str b.client.client_id
  pub keyed : key_match (codes b.client.client_id) ≡ true
  pub ttl_least : 30 ≤ b.policy.approval_ttl_seconds
  pub ttl_most : b.policy.approval_ttl_seconds ≤ 3600
  pub enabled : all (λ e. is_enabled b.policy e.0) b.adapters ≡ true

same_client :
    (client : Client) (v : Value) → not (is_same_client client v) ≡ false → v ≡ str client.client_id
same_client client (str s) h = ap str (sym ((eq_iff client.client_id s).0 (ground arith)))
same_client client _ h = cc

module _ {H : Type 0} where
  all-entries :
      (m p : Bool) (a b : Adapter H) (on : String → Bool)
      → on "mock" ≡ m
      → on "proxmox" ≡ p
      → all (λ e. on e.0) (entry_if m "mock" a ++ entry_if p "proxmox" b) ≡ true
  all-entries true true a b on e f = rw (e, f) refl
  all-entries true false a b on e f = rw e refl
  all-entries false true a b on e f = rw f refl
  all-entries false false a b on e f = refl

  Anything : World H → Type 0
  Anything w = Unit {0}

  trivial : {A : Type 0} (m : Exec (World H) A) → Triple Anything m (λ _. Anything) Anything
  unfolding Anything
  trivial m = record { at = λ w u. always (m w) }
    where
      always : {A : Type 0} (r : Result A × World H) → Post (λ _. Anything) Anything r
      always (ok a, w) = tt
      always (err e, w) = tt

  service_of-IsReady :
      (s : Setup H) (client : Client) (fields : Fields)
      → load_policy s.json s.policy_file ≡ ok fields
      → load_client s.client_file ≡ ok client
      → not (is_same_client client (policy_of fields).client_id) ≡ false
      → IsReady (service_of s client (policy_of fields))
  unfolding adapters_for
  service_of-IsReady s client fields loaded found same = record {
    named = same_client client _ same;
    keyed = (load_client-match s.client_file client found).0;
    ttl_least = (load_policy-IsBounded s.json s.policy_file fields loaded).ttl_least;
    ttl_most = (load_policy-IsBounded s.json s.policy_file fields loaded).ttl_most;
    enabled = all-entries _ _ _ _ (is_enabled (policy_of fields)) refl refl;
  }

  build_service-Triple :
      (s : Setup H) → Triple Anything (build_service s) (λ b w. IsReady b) Anything
  unfolding build_service Anything
  build_service-Triple s =
      Triple-lift _ _ (λ w u. tt)
        λ fields loaded.
          Triple-lift _ _ (λ w u. tt)
            λ client found.
              Triple-refuse_if _ _ _ (λ w u. tt)
                λ same. Triple-bind _ _ (trivial _) λ u.
                  Triple-bind _ _ (trivial _)
                    λ v. Triple-pure _ λ w x. service_of-IsReady s client fields loaded found same

  returned :
      {A : Type 0} (Q : A → Type 0) (r : Result A × World H) (a : A)
      → Post (λ b w. Q b) Anything r
      → r.0 ≡ ok a
      → Q a
  returned Q (ok b, w) a q e = let f : b ≡ a = cc in subst Q f q
  returned Q (err x, w) a q e = cc

  -- Whatever the files and the host hold: a service that is built serves the client that its policy
  -- names, whose identifier has the form of a key, lets a proposal live between 30 and 3600 seconds,
  -- and has no adapter that the policy does not enable.
  pub build_service-IsReady :
      (s : Setup H) (w : World H) (b : Broker H) → (build_service s w).0 ≡ ok b → IsReady b
  unfolding Anything
  build_service-IsReady s w b e = returned IsReady _ b ((build_service-Triple s).at w tt) e
