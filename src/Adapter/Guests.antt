-- ===== src/Adapter/Guests.antt =====
-- The guests of a Proxmox host: the listings, the inventory that is built from them, and the reads
-- (roles/msp_broker/files/broker/proxmox.py). The expressions of `re` are the platform's.
use package.text.Mathlib.Text.{starts_with}
use msp_fleet_public.Base.{
  String, Option, none, some, List, [], ◌∷◌, ◌++◌, ◌==◌, ◌<>◌, map, if◌then◌else◌,
}
use msp_fleet_public.Adapter.Remote.{Runner, first_line, parse_status, ask}
use msp_fleet_public.Exec.{Exec, pure, raise, lift, ◌>>=◌}
use msp_fleet_public.Failure.{Result, ok, err, crash, adapter_error}
use msp_fleet_public.Plan.{Client, Target}
use msp_fleet_public.Platform.{Platform, clamp}
use msp_fleet_public.Store.{inventory_get}
use msp_fleet_public.Text.{strip, splitlines}
use msp_fleet_public.Value.{Value, str, obj, arr, Fields, Items, field, end, nil, cons}
use msp_fleet_public.Value.Arguments.{first_arg}

pub record Guest : Type 0 where
  pub vmid : String
  pub name : String
  pub status : String

-- `l[1:]`
abbrev pub tail : List String → List String
tail [] = []
tail (l ∷ ls) = ls

-- `[part for part in parts if part]`
abbrev pub nonempty : List String → List String
nonempty [] = []
nonempty (s ∷ ss) = let rest = nonempty ss in if s == "" then rest else s ∷ rest

abbrev pub last_of : String → List String → String
last_of s [] = s
last_of s (t ∷ ts) = last_of t ts

abbrev pub drop_char : String → String
drop_char String.[] = String.[]
drop_char (String.◌∷◌ c s) = s

-- `text[3:]`
abbrev pub after_prefix : String → String
after_prefix s = drop_char (drop_char (drop_char s))

module _ (p : Platform) where
  -- `_fields`
  unfoldable pub fields : String → List String
  fields line = nonempty (p.re_split "\\s{2,}" (strip line))

  -- The guest of one line of `qm list`, given the groups of the match.
  abbrev pub qm_guest : Option (List String) → List Guest
  qm_guest (some (vmid ∷ name ∷ status ∷ rest)) =
      record { vmid = vmid; name = name; status = status } ∷ []
  qm_guest _ = []

  -- The guest of one line of `pct list`, given its parts: the name stands last.
  abbrev pub pct_guest : List String → List Guest
  pct_guest (vmid ∷ status ∷ third ∷ rest) =
      if p.isdigit vmid
      then record { vmid = vmid; name = last_of third rest; status = status } ∷ []
      else []
  pct_guest _ = []

  -- The loops over the lines after the heading.
  unfoldable pub qm_lines : List String → List Guest
  qm_lines [] = []
  qm_lines (line ∷ lines) =
      qm_guest
        (p.re_groups "^\\s*(\\d+)\\s+(.+?)\\s{2,}(\\S+)\\s+(\\d+)\\s+([\\d.]+)\\s+(\\S+)\\s*$" line)
      ++ qm_lines lines

  unfoldable pub pct_lines : List String → List Guest
  unfolding fields
  pct_lines [] = []
  pct_lines (line ∷ lines) = pct_guest (fields line) ++ pct_lines lines

  unfoldable pub parse_qm_list : String → List Guest
  unfolding qm_lines
  parse_qm_list text = qm_lines (tail (splitlines text))

  unfoldable pub parse_pct_list : String → List Guest
  unfolding pct_lines
  parse_pct_list text = pct_lines (tail (splitlines text))

  -- The inventory entry of the host itself.
  unfoldable pub node_entry : Client → String → Target
  node_entry client hostname = record {
    id = "node_" <> p.re_sub "[^a-z0-9_]" "_" (p.lower hostname);
    client_id = client.client_id;
    site_id = client.site_id;
    adapter = "proxmox";
    kind = "node";
    name = hostname;
    external_id = hostname;
    attrs = obj end;
  }

-- The inventory entry of a guest, of the kind "vm" or "ct".
unfoldable pub guest_entry : Client → String → Guest → Target
guest_entry client kind g = record {
  id = kind <> "_" <> g.vmid;
  client_id = client.client_id;
  site_id = client.site_id;
  adapter = "proxmox";
  kind = kind;
  name = g.name;
  external_id = g.vmid;
  attrs = obj (field "status" (str g.status) end);
}

-- A list of guests as JSON.
abbrev pub guest_values : List Guest → Items
guest_values [] = nil
guest_values (g ∷ gs) =
    cons
      (obj
        (field "vmid" (str g.vmid) (field "name" (str g.name) (field "status" (str g.status) end))))
      (guest_values gs)

module _ {H : Type 0} (p : Platform) (runner : Runner H) where
  -- The entries that `sync_inventory` hands to the store.
  unfoldable pub survey : Client → Exec H (List Target)
  unfolding node_entry guest_entry
  survey client = do
    (rc, qm_out, e) ← ask p runner ("qm-list" ∷ [])
    (rc', pct_out, e') ← ask p runner ("pct-list" ∷ [])
    (rc'', status_out, e'') ← ask p runner ("status" ∷ [])
    let said = first_line status_out
    let hostname = if said == "" then "unknown" else said
    pure (
        node_entry p client hostname ∷ map (guest_entry client "vm") (parse_qm_list p qm_out)
        ++ map (guest_entry client "ct") (parse_pct_list p pct_out))

  abbrev guest_of : List Target → String → String × String
  guest_of inventory reference = elim (inventory_get inventory reference) [
    | some row ↦ if row.adapter == "proxmox" then (row.external_id, row.kind) else (reference, "vm")
    | none ↦ (reference, "vm")
  ]

  -- `_target_vmid`: the identifier and the kind
  unfoldable pub target_vmid : List Target → Value → Result (String × String)
  target_vmid inventory (str reference) =
      if starts_with reference "ct_"
      then ok (after_prefix reference, "ct")
      else if starts_with reference "vm_"
      then ok (after_prefix reference, "vm")
      else if p.isdigit reference
      then ok (guest_of inventory reference)
      else err (adapter_error ("not a guest reference: " <> reference))
  target_vmid inventory _ = err crash

  module _ (observed : H → String) where
    -- the two keys that every answer has
    abbrev answer : H → Fields → Value
    answer h fs =
        obj (field "source" (str "proxmox_host") (field "observed_at" (str (observed h)) fs))

    abbrev pub answer_now : Fields → Exec H Value
    answer_now fs h = (ok (answer h fs), h)

    unfoldable pub read_vms : Exec H Value
    read_vms = do
      (rc, qm_out, e) ← ask p runner ("qm-list" ∷ [])
      (rc', pct_out, e') ← ask p runner ("pct-list" ∷ [])
      answer_now (
          field "vms" (arr (guest_values (parse_qm_list p qm_out)))
            (field "containers" (arr (guest_values (parse_pct_list p pct_out))) end))

    -- the two commands for one guest, and the answer
    abbrev pub describe : String → String → String → Exec H Value
    describe tool vmid kind = do
      (rc, config, e) ← ask p runner ((tool <> "-config") ∷ vmid ∷ [])
      (rc', status, e') ← ask p runner ((tool <> "-status") ∷ vmid ∷ [])
      answer_now (
          field "vmid" (str vmid) (
            field "kind" (str kind) (
              field "status" (str (parse_status p status))
                (field "config" (str (clamp p 8192 config)) end))))

    unfoldable pub read_vm : List Target → Value → Exec H Value
    unfolding target_vmid
    read_vm inventory args = do
      reference ← lift (first_arg args)
      (vmid, kind) ← lift (target_vmid inventory reference)
      describe (if kind == "ct" then "pct" else "qm") vmid kind

    unfoldable pub read_node : Exec H Value
    read_node = do
      (rc, status, e) ← ask p runner ("status" ∷ [])
      (rc', version, e') ← ask p runner ("pveversion" ∷ [])
      answer_now (
          field "status" (str (clamp p 4096 status))
            (field "version" (str (clamp p 4096 version)) end))

    unfoldable pub read_zpool : Exec H Value
    read_zpool = do
      (rc, out, e) ← ask p runner ("zpool-status" ∷ [])
      answer_now (field "zpool_status" (str (clamp p 8192 out)) end)

    unfoldable pub read : List Target → String → Value → Exec H Value
    unfolding read_vms read_vm read_node read_zpool
    read inventory verb args =
        if verb == "vms"
        then read_vms
        else if verb == "vm"
        then read_vm inventory args
        else if verb == "node"
        then read_node
        else if verb == "zpool"
        then read_zpool
        else raise (adapter_error ("unknown read verb: " <> verb))
