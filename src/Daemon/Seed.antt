-- ===== src/Daemon/Seed.antt =====
-- `seed_inventory` of roles/msp_broker/files/broker/daemon.py, up to its write.
use msp_fleet_public.Base.{
  String, Bool, true, false, Option, none, some, List, [], ◌∷◌, ◌==◌, any, is_none, if◌then◌else◌,
}
use msp_fleet_public.Config.{Json}
use msp_fleet_public.Failure.{
  Refusal, Result, ok, err, ◌>>=◌, ◌>>◌, refused, seed_unreadable, seed_not_list, seed_not_object,
  seed_incomplete, seed_adapter,
}
use msp_fleet_public.Plan.{Client, Target}
use msp_fleet_public.Value.{Value, str, obj, arr, end, Fields, entries, items, lookup, get_or, null}

-- What `open` and `read` find at the path of the seed.
pub data SeedFile : Type 0 where
  missing unreadable : SeedFile
  content : String → SeedFile

-- An entry of `clean`, before the database turns its columns into texts.
pub record Seed : Type 0 where
  pub id : Value
  pub adapter : String
  pub kind : Value
  pub name : Value
  pub external_id : String
  pub attrs : Value

abbrev seed_keys : List String
seed_keys = "id" ∷ "kind" ∷ "name" ∷ "adapter" ∷ "external_id" ∷ []

-- `seed_keys - set(entry)` is not empty
abbrev is_incomplete : Fields → Bool
is_incomplete entry = any (λ k. is_none (lookup k (entries entry))) seed_keys

-- `entry["adapter"] in ("mock", "proxmox")`
abbrev seed_adapter_of : Value → Option String
seed_adapter_of (str s) = if s == "mock" then some s else if s == "proxmox" then some s else none
seed_adapter_of _ = none

abbrev refuse_when : Bool → Refusal → Result (Unit {0})
refuse_when true why = err (refused why)
refuse_when false why = ok tt

module _ (json : Json) where
  abbrev seed_of : Fields → Option String → Result Seed
  seed_of entry none = err (refused seed_adapter)
  seed_of entry (some adapter) = ok (record {
    id = get_or "id" null entry;
    adapter = adapter;
    kind = get_or "kind" null entry;
    name = get_or "name" null entry;
    external_id = json.str_of (get_or "external_id" null entry);
    attrs = get_or "attrs" (obj end) entry;
  })

  -- One round of the loop over the entries.
  unfoldable pub clean_entry : Value → Result Seed
  clean_entry (obj entry) =
      refuse_when (is_incomplete entry) seed_incomplete
      >> seed_of entry (seed_adapter_of (get_or "adapter" null entry))
  clean_entry _ = err (refused seed_not_object)

  unfoldable pub clean_entries : List Value → Result (List Seed)
  unfolding clean_entry
  clean_entries [] = ok []
  clean_entries (v ∷ vs) = do e ← clean_entry v; es ← clean_entries vs; ok (e ∷ es)

  -- The row that the database stores for an entry of this client.
  unfoldable pub seed_target : Client → Seed → Result Target
  seed_target client e = do
    id ← json.column e.id
    kind ← json.column e.kind
    name ← json.column e.name
    ok (record {
      id = id;
      client_id = client.client_id;
      site_id = client.site_id;
      adapter = e.adapter;
      kind = kind;
      name = name;
      external_id = e.external_id;
      attrs = e.attrs;
    })

  unfoldable pub seed_targets : Client → List Seed → Result (List Target)
  unfolding seed_target
  seed_targets client [] = ok []
  seed_targets client (e ∷ es) = do
    t ← seed_target client e
    ts ← seed_targets client es
    ok (t ∷ ts)

  abbrev pub seed_list : Option Value → Result (List Value)
  seed_list none = err (refused seed_unreadable)
  seed_list (some (arr vs)) = ok (items vs)
  seed_list (some _) = err (refused seed_not_list)

  -- `seed_inventory` up to the write: the rows to be stored, none if there is no file
  unfoldable pub seed_rows : Client → SeedFile → Result (List Target)
  unfolding clean_entries seed_targets
  seed_rows client missing = ok []
  seed_rows client unreadable = err (refused seed_unreadable)
  seed_rows client (content text) = do
    vs ← seed_list (json.loads text)
    es ← clean_entries vs
    seed_targets client es
