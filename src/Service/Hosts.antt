-- ===== src/Service/Hosts.antt =====
-- The state of the managed host under the requests other than approvals, for adapters whose prechecks
-- and reads change nothing (roles/msp_broker/files/broker/service.py).
pub mod Authorised
use msp_fleet_public.Base.{
  ℕ, String, Bool, true, false, not, all, ◌≡◌, refl, ap, ◌∙◌, Option, none, some, List, [], ◌∷◌,
  any, ◌==◌, inl, inr, Bool-cases, arith,
}
use msp_fleet_public.Adapter.{Adapter, ReadsAreFree}
use msp_fleet_public.Broker.{Broker, World, Entry}
use msp_fleet_public.Broker.Actions.{on_host, adapter, insert_row, require_approve, present}
use msp_fleet_public.Broker.Frames.{HostFrame, HostFrame-Frame, Keeps-files, host_rules}
use msp_fleet_public.Exec.{Exec, lift, ◌>>=◌}
use msp_fleet_public.Exec.Rules.{Post, Triple, Keeps, Triple-lift}
use msp_fleet_public.Failure.{Fault, Result, ok, err}
use msp_fleet_public.Params.{Params}
use msp_fleet_public.Plan.{Target, Step}
use msp_fleet_public.Policy.{Actor}
use msp_fleet_public.Registry.{Risk}
use msp_fleet_public.Service.Decide.{
  finish_reject, reject, finish_cancel, cancel, approve, approve_check,
}
use msp_fleet_public.Service.Execute.{close_row}
use msp_fleet_public.Service.Propose.{file_proposal, propose}
use msp_fleet_public.Service.ProposePlan.{stage_plan, propose_plan}
use msp_fleet_public.Service.ProposeScript.{freeze, stage_script, propose_script}
use msp_fleet_public.Service.Receipts.{write_receipt-Keeps}
use msp_fleet_public.Service.Requests.{
  Request, list_proposals, show_proposal, inventory_read, target_read, proposal_read, adapter_read,
  read_part, ask_adapter, handle, serve,
}
use msp_fleet_public.Store.{insert_proposal}
use msp_fleet_public.Store.Rows.{Row}
use msp_fleet_public.Value.{Value, lookup}

-- Every adapter of the broker has prechecks that only read.
pub record AllReadsAreFree {H : Type 0} (b : Broker H) : Type 0 where
  pub each : (name : String) (a : Adapter H) → lookup name b.adapters ≡ some a → ReadsAreFree a

-- The host is still `h`.
pub record HostIs {H : Type 0} (h : H) (w : World H) : Type 0 where
  pub same : w.host ≡ h

module _ {H : Type 0} {h : H} where
  pub HostIs-frame : HostFrame (HostIs h)
  HostIs-frame = record { moved = λ w v e s. record { same = e ∙ s.same } }

  pub insert_row-HostIs : (r : Row) → Keeps (HostIs h) (insert_row r)
  unfolding insert_row insert_proposal
  insert_row-HostIs r = record {
    at = λ w s. elim (Bool-cases (any (λ q. q.proposal_id == r.proposal_id) w.proposals)) [
      | inl e ↦ rw e s
      | inr e ↦ rw e (record { same = s.same })
    ];
  }

module _ {H A : Type 0} {h : H} where
  ran :
      (r : Result A × H) (w : World H)
      → r.1 ≡ h
      → Post (λ _. HostIs h) (HostIs h) (r.0, record w { host = r.1 })
  ran (ok a, k) w e = record { same = e }
  ran (err x, k) w e = record { same = e }

  -- a call that leaves every host as it is
  pub on_host-HostIs : (m : Exec H A) → ((k : H) → (m k).1 ≡ k) → Keeps (HostIs h) (on_host m)
  unfolding on_host
  on_host-HostIs m reads = record { at = λ w s. ran (m w.host) w (reads w.host ∙ s.same) }

present-eq-ok : {A : Type 0} (o : Option A) (e : Fault) (a : A) → present o e ≡ ok a → o ≡ some a
present-eq-ok none e a h = cc
present-eq-ok (some x) e a h = cc

module _ {H : Type 0} {h : H} (b : Broker H) (free : AllReadsAreFree b) where
  -- what follows may use that the adapter only reads
  adapter-HostIs :
      {A : Type 0} (name : String) (f : Adapter H → Exec (World H) A)
      → ((a : Adapter H) → ReadsAreFree a → Keeps (HostIs h) (f a))
      → Keeps (HostIs h) (adapter b name >>= f)
  unfolding adapter
  adapter-HostIs name f k =
      Triple-lift _ f (λ w s. s)
        λ a e. k a (free.each name a (present-eq-ok (lookup name b.adapters) _ a e))

  precheck-HostIs :
      (a : Adapter H)
      → ReadsAreFree a
      → (operation : String) (target : Target) (parameters : Params)
      → Keeps (HostIs h) (on_host (a.precheck operation target parameters))
  precheck-HostIs a reads operation target parameters =
      on_host-HostIs _ (reads.precheck_reads operation target parameters)

  file_proposal-HostIs : (r : Row) (e : Entry) → Keeps (HostIs h) (file_proposal b r e)
  unfolding file_proposal
  file_proposal-HostIs r e = search (host_rules, insert_row-HostIs, HostIs-frame)

  freeze-HostIs : (path : String) (bytes : List ℕ) → Keeps (HostIs h) (freeze b path bytes)
  unfolding freeze
  freeze-HostIs path bytes = Keeps-files _ (HostFrame-Frame HostIs-frame)

  ruleset calm = (host_rules, HostIs-frame, adapter-HostIs, precheck-HostIs, file_proposal-HostIs)

  propose-HostIs :
      (actor : Actor) (operation ref parameters : Value)
      → Keeps (HostIs h) (propose b actor operation ref parameters)
  unfolding propose
  propose-HostIs actor operation ref parameters = search calm depth 14

  stage_script-HostIs :
      (actor : Actor) (target : Target) (a : Adapter H)
      → ReadsAreFree a
      → (interpreter : String) (timeout : ℕ) (purpose effects : String) (bytes : List ℕ)
      → Keeps (HostIs h) (stage_script b actor target a interpreter timeout purpose effects bytes)
  unfolding stage_script
  stage_script-HostIs actor target a reads interpreter timeout purpose effects bytes =
      search (calm, freeze-HostIs) depth 10

  propose_script-HostIs :
      (actor : Actor) (ref interpreter : Value) (path : String) (purpose : Value) (effects : String)
      (timeout : Value)
      → Keeps (HostIs h) (propose_script b actor ref interpreter path purpose effects timeout)
  unfolding propose_script
  propose_script-HostIs actor ref interpreter path purpose effects timeout =
      search (calm, stage_script-HostIs) depth 20

  stage_plan-HostIs :
      (actor : Actor) (target : Target) (steps : List Step) (risk : Risk) (purpose : String)
      → Keeps (HostIs h) (stage_plan b actor target steps risk purpose)
  unfolding stage_plan
  stage_plan-HostIs actor target steps risk purpose = search calm depth 10

  propose_plan-HostIs :
      (actor : Actor) (steps purpose : Value)
      → Keeps (HostIs h) (propose_plan b actor steps purpose)
  unfolding propose_plan
  propose_plan-HostIs actor steps purpose = search (calm, stage_plan-HostIs) depth 20

  reject-HostIs : (actor : Actor) (id reason : String) → Keeps (HostIs h) (reject b actor id reason)
  unfolding reject finish_reject
  reject-HostIs actor id reason = search (calm, write_receipt-Keeps) depth 14

  cancel-HostIs : (actor : Actor) (id : String) → Keeps (HostIs h) (cancel b actor id)
  unfolding cancel finish_cancel close_row
  cancel-HostIs actor id = search (calm, write_receipt-Keeps) depth 14

read-HostIs :
    {H : Type 0} {h : H} (a : Adapter H)
    → ReadsAreFree a
    → (inventory : List Target) (verb : String) (args : Value)
    → Keeps (HostIs h) (on_host (a.read inventory verb args))
read-HostIs a reads inventory verb args = on_host-HostIs _ (reads.read_reads inventory verb args)

-- The requests that decide nothing in favour of an execution.
abbrev pub is_approve : Request → Bool
is_approve (Request.approve id confirmation) = true
is_approve _ = false

module _ {H : Type 0} {h : H} (b : Broker H) (free : AllReadsAreFree b) where
  ask_adapter-HostIs :
      (name sub : String) (args : Value) → Keeps (HostIs h) (ask_adapter b name sub args)
  ask_adapter-HostIs name sub args =
      search (host_rules, HostIs-frame, adapter-HostIs b free, read-HostIs) depth 12

  read_part-HostIs :
      (part : Option (String × String)) (args : Value) → Keeps (HostIs h) (read_part b part args)
  read_part-HostIs none args = search host_rules
  read_part-HostIs (some (name, sub)) args = search (host_rules, ask_adapter-HostIs)

  adapter_read-HostIs :
      (actor : Actor) (verb : String) (args : Value)
      → Keeps (HostIs h) (adapter_read b actor verb args)
  unfolding adapter_read
  adapter_read-HostIs actor verb args = search (host_rules, HostIs-frame, read_part-HostIs)

  handle-HostIs :
      (actor : Actor) (r : Request) → is_approve r ≡ false → Keeps (HostIs h) (handle b actor r)
  unfolding handle list_proposals show_proposal inventory_read target_read proposal_read
      adapter_read
  handle-HostIs actor (Request.approve id confirmation) n = cc
  handle-HostIs actor (Request.reject id reason) n = search (host_rules, reject-HostIs b free)
  handle-HostIs actor (Request.cancel id) n = search (host_rules, cancel-HostIs b free)
  handle-HostIs actor (Request.propose o ref ps) n = search (host_rules, propose-HostIs b free)
  handle-HostIs actor (Request.propose_script ref i f p e t) n =
      search (host_rules, propose_script-HostIs b free)
  handle-HostIs actor (Request.propose_plan steps purpose) n =
      search (host_rules, propose_plan-HostIs b free)
  handle-HostIs actor (Request.read_adapter verb args) n = adapter_read-HostIs actor verb args
  handle-HostIs actor _ n = search (host_rules, HostIs-frame) depth 8

pub kept :
    {H A : Type 0} (h : H) (r : Result A × World H)
    → Post (λ _. HostIs h) (HostIs h) r
    → r.1.host ≡ h
kept h (ok a, w) s = s.same
kept h (err e, w) s = s.same

module _ {H : Type 0} (b : Broker H) (free : AllReadsAreFree b) where
  -- A request that is no approval leaves the host as it is, whoever sends it, whether it is refused
  -- or not, if the prechecks and reads of the adapters only read.
  pub host-handle :
      (actor : Actor) (r : Request) (w : World H)
      → is_approve r ≡ false
      → (handle b actor r w).1.host ≡ w.host
  host-handle actor r w n =
      kept w.host _ ((handle-HostIs b free actor r n).at w (record { same = refl }))

  refused_approve :
      (actor : Actor) (id confirmation : String) (w : World H)
      → actor.can_approve ≡ false
      → (handle b actor (Request.approve id confirmation) w).1 ≡ w
  unfolding handle approve approve_check require_approve ◌>>=◌
  refused_approve actor id confirmation w e = rw e

  pub host-handle_refused :
      (actor : Actor) (r : Request) (w : World H)
      → actor.can_approve ≡ false
      → (handle b actor r w).1.host ≡ w.host
  host-handle_refused actor (Request.approve id confirmation) w e =
      ap (λ (v : World H). v.host) (refused_approve actor id confirmation w e)
  host-handle_refused actor r w e = host-handle actor r w refl

  -- Requests of callers that may not approve, of any kind, in any number and order, never change the
  -- host, if the prechecks and reads of the adapters only read.
  pub host-serve_without_approvers :
      (rs : List (Actor × Request)) (w : World H)
      → all (λ x. not x.0.can_approve) rs ≡ true
      → (serve b rs w).host ≡ w.host
  unfolding serve
  host-serve_without_approvers [] w e = refl
  host-serve_without_approvers ((actor, r) ∷ rs) w e =
      host-serve_without_approvers rs _ (ground arith)
      ∙ host-handle_refused actor r w (ground arith)
