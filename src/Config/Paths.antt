-- ===== src/Config/Paths.antt =====
-- Where the broker's files are (`Paths` of roles/msp_broker/files/broker/config.py). The environment
-- variable MSP_BROKER_ROOT is given.
use Prim.Native.Char.{Char, code}
use text.Mathlib.TextLemmas.{nil-append, cons-append}
use msp_fleet_public.Base.{
  String, ◌≡◌, refl, ◌∙◌, ap, Option, none, some, ◌<>◌, nat_eq, if◌then◌else◌,
}

abbrev keep_char : Char → String → String
keep_char c String.[] = if nat_eq (code c) b'/' then String.[] else String.◌∷◌ c String.[]
keep_char c (String.◌∷◌ d s) = String.◌∷◌ c (String.◌∷◌ d s)

-- `root.rstrip("/")`
unfoldable pub strip_slashes : String → String
strip_slashes String.[] = String.[]
strip_slashes (String.◌∷◌ c s) = keep_char c (strip_slashes s)

pub record Paths : Type 0 where
  pub root : String
  pub etc : String
  pub secrets : String
  pub policy : String
  pub client_conf : String
  pub inventory_seed : String
  pub state : String
  pub db : String
  pub proposals : String
  pub receipts : String
  pub lock : String
  pub log : String
  pub run : String
  pub socket : String

-- the paths below a root that is stripped already
abbrev pub below : String → Paths
below root =
    let etc = root <> "/etc/msp" in
    let state = root <> "/var/lib/msp-broker" in
    let run = root <> "/run/msp" in
    record {
      root = root;
      etc = etc;
      secrets = etc <> "/secrets";
      policy = etc <> "/policy.json";
      client_conf = etc <> "/client.conf";
      inventory_seed = etc <> "/inventory.json";
      state = state;
      db = state <> "/broker.db";
      proposals = state <> "/proposals";
      receipts = state <> "/receipts";
      lock = state <> "/execute.lock";
      log = root <> "/var/log/msp-broker";
      run = run;
      socket = run <> "/broker.sock";
    }

abbrev root_or : Option String → Option String → String
root_or none none = "/"
root_or none (some variable) = variable
root_or (some root) variable = root

-- `Paths(root)`, with the value of the variable, if it is set
unfoldable pub paths : Option String → Option String → Paths
unfolding strip_slashes
paths root variable = below (strip_slashes (root_or root variable))

strip_slashes-slash : (s : String) → strip_slashes (s <> "/") ≡ strip_slashes s
unfolding strip_slashes
strip_slashes-slash String.[] = ap strip_slashes (nil-append "/")
strip_slashes-slash (String.◌∷◌ c s) =
    ap strip_slashes (cons-append c s "/") ∙ ap (keep_char c) (strip_slashes-slash s)

-- A slash behind the root changes no path.
paths-slash :
    (root : String) (variable : Option String)
    → paths (some (root <> "/")) variable ≡ paths (some root) variable
unfolding paths
paths-slash root variable = ap below (strip_slashes-slash root)

default_paths : (paths none none).socket ≡ "/run/msp/broker.sock"
unfolding paths
default_paths = refl
