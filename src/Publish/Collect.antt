-- ===== src/Publish/Collect.antt =====
-- What the publishing script collects of the inventory (`legacy` and `collect` of
-- bin/publish-data.py). What `ansible-inventory --list` prints and the file of old names are given. A
-- Python set is a list without duplicates: the source leaves the order of its elements open, and here
-- it is that of their insertion.
use package.text.Mathlib.Text.{starts_with}
use msp_fleet_public.Base.{
  String, not, ◌&&◌, Option, none, some, List, [], ◌∷◌, ◌++◌, ◌==◌, map, contains, if◌then◌else◌,
}
use msp_fleet_public.Failure.{Result, ok, err, ◌>>=◌, crash}
use msp_fleet_public.Text.{strip}
use msp_fleet_public.Value.{Value, null, str, obj, arr, end, entries, items, get_or, truthy}

-- `s.add(x)`
unfoldable pub add : String → List String → List String
add x s = if contains x s then s else s ++ x ∷ []

-- `s | t`
unfoldable pub union : List String → List String → List String
unfolding add
union s [] = s
union s (x ∷ t) = union (add x s) t

-- `legacy`: the lines of publish-legacy-names.txt, if there is such a file
unfoldable pub legacy_names : List String → List String
legacy_names [] = []
legacy_names (ln ∷ lines) =
    let rest = legacy_names lines in
    if not (strip ln == "") && not (starts_with ln "#") then strip ln ∷ rest else rest

abbrev pub legacy : Option (List String) → List String
legacy none = []
legacy (some lines) = union [] (legacy_names lines)

-- `d.get(key, {})` of what must be an object
abbrev pub object_at : String → Value → Result Value
object_at key (obj fs) = ok (get_or key (obj end) fs)
object_at key _ = err crash

-- `h if isinstance(h, str) else h.get("name")`; a name that is not a text raises sooner or later, and
-- None is discarded
abbrev pub host_name : Value → Result (Option String)
host_name (str s) = ok (some s)
host_name (obj fs) = elim (get_or "name" null fs) [
  | str s ↦ ok (some s)
  | null ↦ ok none
  | _ ↦ err crash
]
host_name _ = err crash

abbrev pub add_name : Option String → List String → List String
add_name none hosts = hosts
add_name (some h) hosts = add h hosts

unfoldable pub add_hosts : List Value → List String → Result (List String)
unfolding add
add_hosts [] hosts = ok hosts
add_hosts (h ∷ hs) hosts = host_name h >>= λ name. add_hosts hs (add_name name hosts)

-- the characters of a text, as texts
unfoldable pub characters : String → List Value
characters String.[] = []
characters (String.◌∷◌ c s) = str (String.◌∷◌ c String.[]) ∷ characters s

-- `group.get("hosts") or []`, as it is iterated over
abbrev pub host_values : Value → Result (List Value)
host_values (arr vs) = ok (items vs)
host_values (obj fs) = ok (map (λ e. str e.0) (entries fs))
host_values (str s) = ok (characters s)
host_values v = if truthy v then err crash else ok []

-- The loop over the groups.
unfoldable pub all_hosts : List (String × Value) → List String → Result (List String)
unfolding add_hosts
all_hosts [] hosts = ok hosts
all_hosts ((name, obj group) ∷ groups) hosts =
    if name == "_meta"
    then all_hosts groups hosts
    else (host_values (get_or "hosts" null group) >>= λ vs.
        add_hosts vs hosts >>= λ hosts'. all_hosts groups hosts')
all_hosts (_ ∷ groups) hosts = all_hosts groups hosts

-- `hv.get(h, {}).get(key)`
unfoldable pub var_of : Value → String → String → Result Value
var_of (obj hv) key h = elim (get_or h (obj end) hv) [
  | obj vars ↦ ok (get_or key null vars)
  | _ ↦ err crash
]
var_of _ key h = err crash

-- the values of one variable of the hosts, those that are not empty
abbrev add_var : Value → List String → Result (List String)
add_var (str s) names = ok (if s == "" then names else add s names)
add_var v names = if truthy v then err crash else ok names

unfoldable pub vars_of : Value → String → List String → List String → Result (List String)
unfolding var_of add
vars_of hv key [] names = ok names
vars_of hv key (h ∷ hosts) names =
    var_of hv key h >>= λ v. add_var v names >>= λ names'. vars_of hv key hosts names'

unfoldable pub addresses : Value → List String → Result (List (String × Value))
unfolding var_of
addresses hv [] = ok []
addresses hv (h ∷ hosts) =
    var_of hv "ansible_host" h >>= λ a. addresses hv hosts >>= λ rest. ok ((h, a) ∷ rest)

-- What `collect` returns.
pub record Collected : Type 0 where
  pub hosts : List String
  pub names : List String
  pub addrs : List (String × Value)

unfoldable pub collect : Value → Option (List String) → Result Collected
unfolding all_hosts characters vars_of addresses union legacy_names
collect (obj fs) old = do
  hv ← object_at "hostvars" (get_or "_meta" (obj end) fs)
  hosts ← all_hosts (entries fs) []
  sites ← vars_of hv "site" hosts []
  clients ← vars_of hv "msp_client_name" hosts []
  addrs ← addresses hv hosts
  ok (record { hosts = hosts; names = union (union sites clients) (legacy old); addrs = addrs })
collect _ old = err crash
