-- ===== src/Tests/Lives.antt =====
-- The life of the server, the columns of the store, the ssh command and the publishing script, at
-- concrete inputs.
use msp_fleet_public.Base.{
  ℕ, pos, String, ◌≡◌, refl, sym, subst, ap, none, some, List, [], ◌∷◌, true, false, inl, inr,
  Bool-cases, eq_iff, contains, Option, ◌+◌, ◌==◌, if◌then◌else◌,
}
use msp_fleet_public.Adapter.Remote.{run}
use msp_fleet_public.Adapter.Remote.Ssh.{Site, exited, Process, ssh, report, Accepted, run-ssh}
use msp_fleet_public.Exec.{◌>>=◌}
use msp_fleet_public.Failure.{ok}
use msp_fleet_public.Kinds.{codes}
use msp_fleet_public.Samples.{platform, broker, staged}
use msp_fleet_public.Server.Lifetime.{
  Peer, handle_peers, server_life, server_life-Moves, host-server_life,
}
use msp_fleet_public.Server.Listener.{
  Node, Life, Listener, Phase, Event, bind, next_round, shutdown, accept, serve_loop, serve_forever,
}
use msp_fleet_public.Server.Listener.Ended.{Serves, serve_forever-Serves, serve_forever_not_socket}
use msp_fleet_public.Store.Columns.{Dict, json_fields, row, encode}
use msp_fleet_public.Store.Columns.Restored.{row-encode}
use msp_fleet_public.Store.Moves.{Moves}
use msp_fleet_public.Tests.{reads_free}
use msp_fleet_public.Tests.Serving.{outside, chunks, refusal, connection}
use msp_fleet_public.Value.{Value, null, str, obj, end, lookup}

-- the server before `_bind`, with a file system node at the path of its socket
abbrev before : Node → Life
before node = record {
  run_dir = record { mode = 493; group = none };
  node = node;
  permissions = record { mode = 0; group = none };
  listener = Listener.unbound;
  stop = false;
  phase = Phase.accepting;
  handled = [];
}

abbrev events : List Event
events = Event.timed_out ∷ Event.accepted 7 ∷ Event.signal ∷ Event.failure ∷ []

serve_forever-Serves_example :
    Serves
      (some 900)
      true
      (before Node.socket)
      events
      (serve_forever (some 900) true (before Node.socket) events)
serve_forever-Serves_example =
    serve_forever-Serves (some 900) true (before Node.socket) events refl refl (inr refl)

serve_forever_not_socket_example :
    let s' = serve_forever (some 900) true (before Node.other) events in
    (s'.node ≡ Node.other)
    × (s'.phase ≡ Phase.raised)
    × (s'.handled ≡ [])
    × (s'.listener ≡ Listener.unbound)
serve_forever_not_socket_example =
    serve_forever_not_socket (some 900) true (before Node.other) events (λ e. cc) (λ e. cc)

-- one connection of a user who is in no group
abbrev peer : ℕ → Peer
peer conn = record { uid = 1001; gid = 1001; chunks = chunks }

lived :
    server_life broker outside (some 900) true (before Node.absent) events peer staged
    ≡ some (refusal ∷ [], staged)
unfolding server_life handle_peers serve_forever bind serve_loop accept next_round shutdown
lived = rw connection refl

server_life-Moves_example : Moves staged.proposals staged.proposals
server_life-Moves_example =
    server_life-Moves broker outside (some 900) true (before Node.absent) events peer staged staged
      (refusal ∷ []) lived

host-server_life_example : staged.host ≡ staged.host
host-server_life_example =
    host-server_life broker outside (some 900) true (before Node.absent) events peer staged staged
      (refusal ∷ []) lived reads_free refl refl refl (inl refl) refl

abbrev columns : Dict
columns = ("status", str "PROPOSED") ∷ ("plan", obj end) ∷ ("post_state", null) ∷ []

abbrev dumps : Value → String
dumps null = "null"
dumps v = "{}"

abbrev loads : String → Option Value
loads s = if s == "null" then some null else some (obj end)

reads_back :
    (u v : Value)
    → loads (dumps u) ≡ some u
    → ◌≡◌ {A = Option Value} (some u) (some v)
    → loads (dumps v) ≡ some v
reads_back u v r e = let same : u ≡ v = cc in subst (λ (x : Value). loads (dumps x) ≡ some x) same r

reads_nothing : (v : Value) → ◌≡◌ {A = Option Value} none (some v) → ⊥
reads_nothing v e = cc

reads_columns :
    (f : String) (v : Value)
    → contains f json_fields ≡ true
    → lookup f columns ≡ some v
    → loads (dumps v) ≡ some v
reads_columns f v c e = elim (Bool-cases ("status" == f)) [
  | inl h ↦
      let not_json : contains f json_fields ≡ false =
        ap (λ (g : String). contains g json_fields) (sym ((eq_iff "status" f).0 h)) in
      cc not_json
  | inr h ↦ elim (Bool-cases ("plan" == f)) [
    | inl k ↦ reads_back (obj end) v refl (rw (h, k) at e)
    | inr k ↦ elim (Bool-cases ("post_state" == f)) [
      | inl l ↦ reads_back null v refl (rw (h, k, l) at e)
      | inr l ↦ absurd (reads_nothing v (rw (h, k, l) at e))
    ]
  ]
]

row-encode_example :
    (out : Dict) × (row loads (encode dumps columns) ≡ ok out)
    × ((k : String) → lookup k out ≡ lookup k columns)
row-encode_example = row-encode dumps loads columns reads_columns

abbrev site : Site
site = record { host = "pve.example.net"; user = "msp-agent"; key = "/k"; known_hosts = "/h" }

abbrev process : Process ℕ
process argv stdin timeout h = (exited (pos 0) (codes "running") (codes ""), h + 1)

run-ssh_example :
    Accepted platform
      (0 ∷ [])
      (exited (pos 0) (codes "running") (codes ""))
      (pos 0)
      (platform.decode (codes "running"))
      (platform.decode (codes ""))
unfolding ssh report run ◌>>=◌
run-ssh_example =
    run-ssh platform process site (0 ∷ []) ("qm-status" ∷ "100" ∷ []) none 30 0 (pos 0)
      (platform.decode (codes "running")) (platform.decode (codes "")) refl
