-- ===== src/Publish/Main.antt =====
-- The command line of the publishing script (`inventory` and `main` of bin/publish-data.py). The file
-- system, the process that is run and the JSON decoder are given.
use msp_fleet_public.Base.{
  ℤ, String, Bool, true, ◌≡◌, refl, Option, none, some, List, [], ◌∷◌, ◌==◌, ◌<>◌, is_zero,
  Bool-cases, inl, inr, if◌then◌else◌,
}
use msp_fleet_public.Failure.{Result, ok, err}
use msp_fleet_public.Publish.{Python, scrub, gate}
use msp_fleet_public.Publish.Collect.{Collected, collect}
use msp_fleet_public.Text.{strip}
use msp_fleet_public.Value.{Value}

-- What `subprocess.run` gives, if it does not raise.
pub record Run : Type 0 where
  pub returncode : ℤ
  pub stdout : String
  pub stderr : String

pub record Shell : Type 0 where
  pub python : Python
  -- `os.path.join(a, b)`
  pub path_join : String → String → String
  pub isdir : String → Bool
  pub exists : String → Bool
  pub subprocess : List String → Option Run
  -- `json.loads(text)`, or its ValueError
  pub loads : String → Option Value
  -- the lines of a file that can be read
  pub read_lines : String → Option (List String)

-- The end of the script: what it prints, the message of `sys.exit`, or an exception.
pub data Exit : Type 0 where
  printed : String → Exit
  stopped : String → Exit
  raised : Exit

module _ (sh : Shell) where
  abbrev inventory_path : String → String
  inventory_path root =
      let inv = sh.path_join root "inventory" in
      if sh.isdir inv then inv else sh.path_join inv "hosts.yml"

  abbrev ansible_inventory : String → String
  ansible_inventory root =
      let ainv =
        sh.path_join (sh.path_join (sh.path_join root ".venv") "bin") "ansible-inventory" in
      if sh.exists ainv then ainv else "ansible-inventory"

  unfoldable pub inventory_command : String → List String
  inventory_command root = ansible_inventory root ∷ "-i" ∷ inventory_path root ∷ "--list" ∷ []

  abbrev loaded_value : Option Value → (Value → Exit) → Exit
  loaded_value none f = raised
  loaded_value (some v) f = f v

  abbrev with_run : Option Run → (Value → Exit) → Exit
  with_run none f = raised
  with_run (some p) f =
      if is_zero p.returncode
      then loaded_value (sh.loads p.stdout) f
      else stopped ("publish-data: ansible-inventory failed:\n" <> strip p.stderr)

  -- `inventory`, with what is done with its value
  unfoldable pub inventory : String → (Value → Exit) → Exit
  unfolding inventory_command
  inventory root f = with_run (sh.subprocess (inventory_command root)) f

  abbrev pub print_of : Result Collected → (Collected → String) → Exit
  print_of (err e) f = raised
  print_of (ok c) f = printed (f c <> "\n")

  -- `collect(root)`, with what is printed of it
  unfoldable pub print_collected : String → (Collected → String) → Exit
  unfolding inventory
  print_collected root f =
      inventory root
        λ v. print_of (collect v (sh.read_lines (sh.path_join root "publish-legacy-names.txt"))) f

  -- `"\n".join(lines)`
  unfoldable pub lines_text : List String → String
  lines_text [] = ""
  lines_text (l ∷ []) = l
  lines_text (l ∷ m ∷ ls) = l <> "\n" <> lines_text (m ∷ ls)

  -- `__doc__`
  abbrev pub usage : String
  usage =
      "Site data for bin/publish: the scrub list and the export gate pattern.\n\nReads the inventory directory only (never group_vars values beyond what the inventory exposes).\n  publish-data.py scrub ROOT   -> git-filter-repo --replace-text lines: addresses, host names, site names\n  publish-data.py gate ROOT    -> one extended-regex alternation for `git grep -E` over the exported history\n"

  abbrev root_of : List String → String
  root_of [] = "."
  root_of (root ∷ rest) = root

  -- `main`, over the arguments behind the name of the script
  unfoldable pub main : List String → Exit
  unfolding print_collected lines_text
  main [] = stopped usage
  main (verb ∷ rest) =
      if verb == "scrub"
      then print_collected (root_of rest) (λ c. lines_text (scrub sh.python c))
      else if verb == "gate"
      then print_collected (root_of rest) (gate sh.python)
      else stopped usage

-- What is printed stands on: an inventory command that ended with code 0, whose output is JSON and is
-- collected.
pub record Printed (sh : Shell) (root text : String) (f : Collected → String) : Type 0 where
  pub process : Run
  pub ran : sh.subprocess (inventory_command sh root) ≡ some process
  pub succeeded : is_zero process.returncode ≡ true
  pub value : Value
  pub decodes : sh.loads process.stdout ≡ some value
  pub data_of : Collected
  pub collects :
      collect value (sh.read_lines (sh.path_join root "publish-legacy-names.txt")) ≡ ok data_of
  pub shows : text ≡ f data_of <> "\n"

module _ (sh : Shell) (text : String) where
  with_run_printed :
      (o : Option Run) (f : Value → Exit)
      → with_run sh o f ≡ printed text
      → (p : Run) × (o ≡ some p)
        × (is_zero p.returncode ≡ true)
        × (loaded_value sh (sh.loads p.stdout) f ≡ printed text)
  with_run_printed none f h = cc
  with_run_printed (some p) f h = elim (Bool-cases (is_zero p.returncode)) [
    | inl e ↦ (p, refl, e, rw e at h)
    | inr e ↦ cc (rw e at h)
  ]

  decoded_printed :
      (o : Option Value) (f : Value → Exit)
      → loaded_value sh o f ≡ printed text
      → (v : Value) × (o ≡ some v) × (f v ≡ printed text)
  decoded_printed none f h = cc
  decoded_printed (some v) f h = (v, refl, h)

  collected_printed :
      (r : Result Collected) (f : Collected → String)
      → print_of sh r f ≡ printed text
      → (c : Collected) × (r ≡ ok c) × (text ≡ f c <> "\n")
  collected_printed (err e) f h = cc
  collected_printed (ok c) f h = (c, refl, cc)

  print_collected-Printed :
      (root : String) (f : Collected → String)
      → print_collected sh root f ≡ printed text
      → Printed sh root text f
  unfolding print_collected
  print_collected-Printed root f h =
      let old = sh.read_lines (sh.path_join root "publish-legacy-names.txt") in
      let rest = λ (v : Value). print_of sh (collect v old) f in
      let (p, ran, zero_code, h') =
        with_run_printed (sh.subprocess (inventory_command sh root)) rest h in
      let (v, decodes, h'') = decoded_printed (sh.loads p.stdout) rest h' in
      let (c, collects, shows) = collected_printed (collect v old) f h'' in
      record {
        process = p;
        ran = ran;
        succeeded = zero_code;
        value = v;
        decodes = decodes;
        data_of = c;
        collects = collects;
        shows = shows;
      }

  -- The script prints a gate only of what it collects from an inventory command that succeeds: with the
  -- argument `gate` and a root, what is printed is the gate of that and a newline.
  pub main-gate :
      (root : String) (rest : List String)
      → main sh ("gate" ∷ root ∷ rest) ≡ printed text
      → Printed sh root text (gate sh.python)
  unfolding main
  main-gate root rest h = print_collected-Printed root (gate sh.python) h

  pub main-scrub :
      (root : String) (rest : List String)
      → main sh ("scrub" ∷ root ∷ rest) ≡ printed text
      → Printed sh root text (λ c. lines_text sh (scrub sh.python c))
  unfolding main
  main-scrub root rest h = print_collected-Printed root (λ c. lines_text sh (scrub sh.python c)) h
