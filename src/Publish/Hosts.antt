-- ===== src/Publish/Hosts.antt =====
-- From the inventory to the printed gate (bin/publish-data.py).
use msp_fleet_public.Base.{
  String, Bool, true, false, not, ◌&&◌, ◌≡◌, refl, sym, ap, subst, ◌∙◌, Option, none, some, List,
  [], ◌∷◌, ◌==◌, ◌<>◌, arith, any, contains, Bool-cases, inl, inr,
}
use msp_fleet_public.Failure.{Result, ok, err, ◌>>=◌, bind-eq-ok}
use msp_fleet_public.Publish.{Python, gate, patterns, word, e}
use msp_fleet_public.Publish.Alternatives.{IsAlternative, line-IsAlternative}
use msp_fleet_public.Publish.Collect.{
  Collected, host_name, add_name, add_hosts, host_values, all_hosts, collect, object_at, vars_of,
  addresses, union, legacy,
}
use msp_fleet_public.Publish.Covered.{contains-add, patterns-cover}
use msp_fleet_public.Publish.Escaped.{literal, literal-e}
use msp_fleet_public.Publish.Main.{Shell, Run, printed, inventory_command, main, main-gate}
use msp_fleet_public.Value.{Value, str, obj, Fields, end, entries, get_or, null}

-- a host that stands as a text in a list of hosts
abbrev is_named : String → Value → Bool
is_named h (str s) = s == h
is_named h v = false

abbrev among : String → Result (List Value) → Bool
among h (ok vs) = any (is_named h) vs
among h (err e) = false

abbrev group_has : String → Value → Bool
group_has h (obj group) = among h (host_values (get_or "hosts" null group))
group_has h v = false

-- Some group other than `_meta` lists the host.
abbrev pub lists_host : String → List (String × Value) → Bool
lists_host h groups = any (λ g. not (g.0 == "_meta") && group_has h g.1) groups

module _ (h : String) where
  contains-add_name :
      (o : Option String) (s : List String) → contains h s ≡ true → contains h (add_name o s) ≡ true
  contains-add_name none s k = k
  contains-add_name (some x) s k = contains-add x h s ∙ ground arith

  contains-add_hosts :
      (hs : List Value) (s s' : List String)
      → contains h s ≡ true
      → add_hosts hs s ≡ ok s'
      → contains h s' ≡ true
  unfolding add_hosts
  contains-add_hosts [] s s' k e = let same : s ≡ s' = cc in ap (contains h) (sym same) ∙ k
  contains-add_hosts (v ∷ hs) s s' k e =
      let (name, named, e') =
        bind-eq-ok (host_name v) (λ name. add_hosts hs (add_name name s)) s' e in
      contains-add_hosts hs (add_name name s) s' (contains-add_name name s k) e'

  add_named :
      (v : Value) (name : Option String) (s : List String)
      → is_named h v ≡ true
      → host_name v ≡ ok name
      → contains h (add_name name s) ≡ true
  add_named (str x) name s k e =
      let same : some x ≡ name = cc in
      ap (λ (o : Option String). contains h (add_name o s)) (sym same)
      ∙ contains-add x h s
      ∙ ground arith
  add_named v name s k e = cc

  -- what a list of hosts names is among the hosts after it
  add_hosts-adds :
      (hs : List Value) (s s' : List String)
      → any (is_named h) hs ≡ true
      → add_hosts hs s ≡ ok s'
      → contains h s' ≡ true
  unfolding add_hosts
  add_hosts-adds [] s s' k e = cc
  add_hosts-adds (v ∷ hs) s s' k e =
      let (name, named, e') =
        bind-eq-ok (host_name v) (λ name. add_hosts hs (add_name name s)) s' e in
      elim (Bool-cases (is_named h v)) [
        | inl here ↦ contains-add_hosts hs (add_name name s) s' (add_named v name s here named) e'
        | inr there ↦ add_hosts-adds hs (add_name name s) s' (ground arith) e'
      ]

  -- the part of the loop for a group that is not `_meta`
  abbrev group_hosts : Value → List (String × Value) → List String → Result (List String)
  group_hosts list groups s =
      host_values list >>= λ vs. add_hosts vs s >>= λ s'. all_hosts groups s'

  group_hosts-inverted :
      (list : Value) (groups : List (String × Value)) (s s' : List String)
      → group_hosts list groups s ≡ ok s'
      → (vs : List Value) × (host_values list ≡ ok vs)
        × (t : List String) × (add_hosts vs s ≡ ok t)
        × (all_hosts groups t ≡ ok s')
  group_hosts-inverted list groups s s' e =
      let (vs, values, e') =
        bind-eq-ok (host_values list) (λ vs. add_hosts vs s >>= λ t. all_hosts groups t) s' e in
      let (t, added, e'') = bind-eq-ok (add_hosts vs s) (λ t. all_hosts groups t) s' e' in
      (vs, values, t, added, e'')

  all_hosts-keeps :
      (groups : List (String × Value)) (s s' : List String)
      → contains h s ≡ true
      → all_hosts groups s ≡ ok s'
      → contains h s' ≡ true
  unfolding all_hosts
  all_hosts-keeps [] s s' k e = let same : s ≡ s' = cc in ap (contains h) (sym same) ∙ k
  all_hosts-keeps ((name, obj group) ∷ groups) s s' k e = elim (Bool-cases (name == "_meta")) [
    | inl m ↦ all_hosts-keeps groups s s' k (rw m at e)
    | inr m ↦
        let (vs, values, t, added, rest) =
          group_hosts-inverted (get_or "hosts" null group) groups s s' (rw m at e) in
        all_hosts-keeps groups t s' (contains-add_hosts vs s t k added) rest
  ]
  all_hosts-keeps ((name, _) ∷ groups) s s' k e = all_hosts-keeps groups s s' k e

  all_hosts-adds :
      (groups : List (String × Value)) (s s' : List String)
      → lists_host h groups ≡ true
      → all_hosts groups s ≡ ok s'
      → contains h s' ≡ true
  unfolding all_hosts
  all_hosts-adds [] s s' k e = cc
  all_hosts-adds ((name, obj group) ∷ groups) s s' k e = elim (Bool-cases (name == "_meta")) [
    | inl m ↦ all_hosts-adds groups s s' (ground (arith, m)) (rw m at e)
    | inr m ↦
        let (vs, values, t, added, rest) =
          group_hosts-inverted (get_or "hosts" null group) groups s s' (rw m at e) in
        elim (Bool-cases (any (is_named h) vs)) [
          | inl here ↦ all_hosts-keeps groups t s' (add_hosts-adds vs s t here added) rest
          | inr there ↦
              let not_here : group_has h (obj group) ≡ false = ap (among h) values ∙ there in
              all_hosts-adds groups t s' (ground arith) rest
        ]
  ]
  all_hosts-adds ((name, _) ∷ groups) s s' k e = all_hosts-adds groups s s' (ground arith) e

  contains-collect :
      (fs : Fields) (old : Option (List String)) (c : Collected)
      → lists_host h (entries fs) ≡ true
      → collect (obj fs) old ≡ ok c
      → contains h c.hosts ≡ true
  unfolding collect
  contains-collect fs old c k e =
      let made = λ (hosts sites clients : List String) (addrs : List (String × Value)).
        let r : Result Collected = ok (record {
          hosts = hosts;
          names = union (union sites clients) (legacy old);
          addrs = addrs;
        }) in
        r in
      let with_clients = λ (hv : Value) (hosts sites clients : List String).
        addresses hv hosts >>= made hosts sites clients in
      let with_sites = λ (hv : Value) (hosts sites : List String).
        vars_of hv "msp_client_name" hosts [] >>= with_clients hv hosts sites in
      let with_hosts =
        λ (hv : Value) (hosts : List String). vars_of hv "site" hosts [] >>= with_sites hv hosts in
      let (hv, e1, r1) =
        bind-eq-ok (object_at "hostvars" (get_or "_meta" (obj end) fs))
          (λ hv. all_hosts (entries fs) [] >>= with_hosts hv) c e in
      let (hosts, e2, r2) = bind-eq-ok (all_hosts (entries fs) []) (with_hosts hv) c r1 in
      let (sites, e3, r3) = bind-eq-ok (vars_of hv "site" hosts []) (with_sites hv hosts) c r2 in
      let (clients, e4, r4) =
        bind-eq-ok (vars_of hv "msp_client_name" hosts []) (with_clients hv hosts sites) c r3 in
      let (addrs, e5, r5) = bind-eq-ok (addresses hv hosts) (made hosts sites clients) c r4 in
      let same : hosts ≡ c.hosts = cc (r5) in
      ap (contains h) (sym same) ∙ all_hosts-adds (entries fs) [] hosts k e2

-- A word that is among the patterns stands in the printed text, and its escaped name is literal.
literal-word :
    (py : Python) (c : Collected) (name : String)
    → contains (word name) (patterns py c) ≡ true
    → (w : String) × (literal false w ≡ some name)
      × IsAlternative "\n" ("\\b" <> w <> "\\b") (gate py c <> "\n")
unfolding gate
literal-word py c name held =
    (e name, literal-e name, line-IsAlternative (patterns py c) (word name) held)

-- No host of the inventory slips past the gate: if the script prints a gate for a root, and the
-- inventory command ended with an output that is an object in which some group other than `_meta` lists
-- a host by its name, then what is printed is the gate of what is collected from that object and the
-- old names' file, and a newline; and one alternative of the printed text is a pattern between word
-- boundaries that has every metacharacter escaped and matches this very name.
pub main-gate_covers :
    (sh : Shell) (root text h : String) (rest : List String) (process : Run) (fs : Fields)
    → main sh ("gate" ∷ root ∷ rest) ≡ printed text
    → sh.subprocess (inventory_command sh root) ≡ some process
    → sh.loads process.stdout ≡ some (obj fs)
    → lists_host h (entries fs) ≡ true
    → (c : Collected) × (collect
          (obj fs)
          (sh.read_lines (sh.path_join root "publish-legacy-names.txt"))
        ≡ ok c)
      × (text ≡ gate sh.python c <> "\n")
      × (w : String) × (literal false w ≡ some h)
      × IsAlternative "\n" ("\\b" <> w <> "\\b") text
main-gate_covers sh root text h rest process fs e ran decodes listed =
    let p = main-gate sh text root rest e in
    let same_run : p.process ≡ process = cc (p.ran) in
    let same_value : p.value ≡ obj fs =
      cc (p.decodes, decodes, ap (λ (r : Run). sh.loads r.stdout) same_run) in
    let old = sh.read_lines (sh.path_join root "publish-legacy-names.txt") in
    let collects : collect (obj fs) old ≡ ok p.data_of =
      ap (λ (v : Value). collect v old) (sym same_value) ∙ p.collects in
    let held = contains-collect h fs old p.data_of listed collects in
    let (w, matches, stands) =
      literal-word sh.python p.data_of h (patterns-cover sh.python p.data_of h (rw held refl)) in
    let stands' : IsAlternative "\n" ("\\b" <> w <> "\\b") text =
      subst (λ t. IsAlternative "\n" ("\\b" <> w <> "\\b") t) (sym p.shows) stands in
    (p.data_of, collects, p.shows, w, matches, stands')
