-- ===== src/Service/Replies.antt =====
-- The JSON of what the methods return (roles/msp_broker/files/broker/service.py). Keys stand in the order of `sort_keys`; the text of a time is given.
use msp_fleet_public.Base.{ℕ, String, Option, none, some, [], ◌∷◌, ◌++◌, map}
use msp_fleet_public.Plan.{Target}
use msp_fleet_public.Plan.Json.{
  dict, array, only, state_json, params_json, declared_json, plan_json,
}
use msp_fleet_public.Registry.{Risk}
use msp_fleet_public.Service.Execute.{Answer}
use msp_fleet_public.Service.Requests.{
  Reply, summarised, answered, decided, shown, listed, targets, target, proposal, observed,
}
use msp_fleet_public.Service.Views.{Summary, Public}
use msp_fleet_public.Store.Rows.{Status}
use msp_fleet_public.Value.{Value, null, num, str, obj, arr}

-- None as null
abbrev or_null {ℓ} : {A : Type ℓ} → (A → Value) → Option A → Value
or_null f none = null
or_null f (some a) = f a

unfoldable pub status_text : Status → String
status_text Status.proposed = "PROPOSED"
status_text Status.approved = "APPROVED"
status_text Status.rejected = "REJECTED"
status_text Status.cancelled = "CANCELLED"
status_text Status.expired = "EXPIRED"
status_text Status.executing = "EXECUTING"
status_text Status.succeeded = "SUCCEEDED"
status_text Status.failed = "FAILED"

unfoldable pub risk_text : Risk → String
risk_text Risk.low = "LOW"
risk_text Risk.disruptive = "DISRUPTIVE"
risk_text Risk.high = "HIGH"
risk_text Risk.forbidden = "FORBIDDEN"

abbrev status_json : Status → Value
status_json s = str (status_text s)

abbrev risk_json : Risk → Value
risk_json r = str (risk_text r)

-- What `_execute` returns: a summary where nothing was run, and otherwise what the run has given.
unfoldable pub answer_json : Answer → Value
unfolding status_text
answer_json a = elim a.rc [
  | none ↦ obj (
      dict (
        ("proposal_id", str a.proposal_id)
        ∷ ("status", status_json a.status)
        ∷ ("summary", str a.summary)
        ∷ []))
  | some rc ↦ obj (
      dict (
        ("proposal_id", str a.proposal_id)
        ∷ ("rc", num rc)
        ∷ ("status", status_json a.status)
        ∷ ("stderr", str a.stderr)
        ∷ ("stdout", str a.stdout)
        ∷ []))
]

-- a target of the list of them, and the whole row of one
unfoldable pub listed_target_json : Target → Value
listed_target_json t = obj (
    dict (
      ("adapter", str t.adapter)
      ∷ ("external_id", str t.external_id)
      ∷ ("id", str t.id)
      ∷ ("kind", str t.kind)
      ∷ ("name", str t.name)
      ∷ []))

unfoldable pub target_json : Target → Value
target_json t = obj (
    dict (
      ("adapter", str t.adapter)
      ∷ ("attrs", t.attrs)
      ∷ ("client_id", str t.client_id)
      ∷ ("external_id", str t.external_id)
      ∷ ("id", str t.id)
      ∷ ("kind", str t.kind)
      ∷ ("name", str t.name)
      ∷ ("site_id", str t.site_id)
      ∷ []))

module _ (time_text : ℕ → String) where
  abbrev time_json : ℕ → Value
  time_json t = str (time_text t)

  -- `_summary`
  unfoldable pub summary_json : Summary → Value
  unfolding status_text risk_text
  summary_json s = obj (
      dict (
        only "confirmation_required" str s.confirmation_required
        ++ ("created_at", time_json s.created_at)
          ∷ ("expires_at", time_json s.expires_at)
          ∷ ("operation", str s.operation)
          ∷ ("proposal_id", str s.proposal_id)
          ∷ ("risk", risk_json s.risk)
          ∷ ("status", status_json s.status)
          ∷ ("target_id", str s.target_id)
          ∷ ("target_name", str s.target_name)
          ∷ []))

  -- `_public`; the executor of a plan is always a text
  unfoldable pub public_json : Public → Value
  unfolding status_text risk_text declared_json plan_json
  public_json p = obj (
      dict (
        ("ai_declared", or_null declared_json p.ai_declared)
        ∷ ("approved_at", or_null time_json p.approved_at)
        ∷ ("approver", or_null str p.approver)
        ∷ ("client_id", str p.client_id)
        ∷ ("confirmation_required", or_null str p.confirmation_required)
        ∷ ("created_at", time_json p.created_at)
        ∷ (only "description" str p.description
            ++ only "effect" str p.effect
            ++ only "executor" str p.executor
            ++ ("expires_at", time_json p.expires_at)
              ∷ ("operation", str p.operation)
              ∷ ("parameters", params_json p.parameters)
              ∷ (only "plan" plan_json p.plan
                  ++ ("pre_state", or_null state_json p.pre_state)
                    ∷ ("proposal_id", str p.proposal_id)
                    ∷ ("result_rc", or_null num p.result_rc)
                    ∷ ("result_summary", str p.result_summary)
                    ∷ ("risk", risk_json p.risk)
                    ∷ ("site_id", str p.site_id)
                    ∷ ("status", status_json p.status)
                    ∷ ("target_id", str p.target_id)
                    ∷ ("target_name", str p.target_name)
                    ∷ []))))

  abbrev observed_json : String → ℕ → String → Value → Value
  observed_json source t key v =
      obj (dict (("observed_at", time_json t) ∷ (key, v) ∷ ("source", str source) ∷ []))

  abbrev targets_json : ℕ → Value → Value
  targets_json t v = obj (
      dict
        (("observed_at", time_json t) ∷ ("source", str "broker_inventory") ∷ ("targets", v) ∷ []))

  abbrev target_read_json : ℕ → Value → Value
  target_read_json t v = obj (
      dict (("observed_at", time_json t) ∷ ("source", str "broker_inventory") ∷ ("target", v) ∷ []))

  unfoldable pub reply_json : Reply → Value
  unfolding status_text answer_json listed_target_json target_json summary_json public_json
  reply_json (summarised s) = summary_json s
  reply_json (answered a) = answer_json a
  reply_json (decided (id, status)) =
      obj (dict (("proposal_id", str id) ∷ ("status", status_json status) ∷ []))
  reply_json (shown p) = public_json p
  reply_json (listed l) = arr (array (map summary_json l))
  reply_json (targets t l) = targets_json t (arr (array (map listed_target_json l)))
  reply_json (target t found) = target_read_json t (target_json found)
  reply_json (proposal t p) = observed_json "broker_state" t "proposal" (public_json p)
  reply_json (observed v) = v
