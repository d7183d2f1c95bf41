-- ===== src/Tests/Gate.antt =====
-- A run of the publishing script over an inventory with one host.
use msp_fleet_public.Base.{◌≡◌, refl, none, some, [], ◌∷◌, ◌<>◌, pos, false, true, String}
use msp_fleet_public.Publish.{Python, gate}
use msp_fleet_public.Publish.Alternatives.{IsAlternative}
use msp_fleet_public.Failure.{ok}
use msp_fleet_public.Publish.Escaped.{literal}
use msp_fleet_public.Publish.Collect.{
  Collected, collect, all_hosts, add_hosts, add, vars_of, var_of, addresses, union, legacy_names,
}
use msp_fleet_public.Publish.Hosts.{main-gate_covers}
use msp_fleet_public.Publish.Main.{Shell, Run, Exit, main, print_collected, inventory}
use msp_fleet_public.Value.{str, obj, arr, Fields, field, end, cons, nil, null, truthy}

abbrev python : Python
python = record { fullmatch = λ pattern text. false; str_of = λ v. ""; before = λ s t. true }

abbrev hosts : Fields
hosts = field "web" (obj (field "hosts" (arr (cons (str "pve1") nil)) end)) end

abbrev process : Run
process = record { returncode = pos 0; stdout = "{}"; stderr = "" }

abbrev shell : Shell
shell = record {
  python = python;
  path_join = λ a b. a <> "/" <> b;
  isdir = λ path. true;
  exists = λ path. false;
  subprocess = λ argv. some process;
  loads = λ text. some (obj hosts);
  read_lines = λ path. none;
}

abbrev found : Collected
found = record { hosts = "pve1" ∷ []; names = []; addrs = ("pve1", null) ∷ [] }

printed_gate : main shell ("gate" ∷ "." ∷ []) ≡ Exit.printed (gate python found <> "\n")
unfolding main print_collected inventory collect all_hosts add_hosts add vars_of var_of addresses
    union legacy_names truthy
printed_gate = refl

main-gate_covers_example :
    (c : Collected) × (collect (obj hosts) none ≡ ok c)
    × (gate python found <> "\n" ≡ gate python c <> "\n")
    × (w : String) × (literal false w ≡ some "pve1")
    × IsAlternative "\n" ("\\b" <> w <> "\\b") (gate python found <> "\n")
main-gate_covers_example =
    main-gate_covers shell "." (gate python found <> "\n") "pve1" [] process hosts printed_gate refl
      refl refl
