-- ===== src/Server/Listener.antt =====
-- The life of the server (`_bind`, `serve_forever` and `shutdown` of
-- roles/msp_broker/files/broker/server.py): the socket in the file system and the loop that accepts
-- connections. The system calls on the run directory and on a new socket are taken to succeed, except
-- where the model says so.
pub mod Ended
use Prim.Native.Nat.{◌*◌}
use msp_fleet_public.Base.{
  ℕ, Bool, true, false, not, ◌&&◌, Option, none, some, List, [], ◌∷◌, ◌++◌, if◌then◌else◌,
}

-- What is at the path of the socket; `os.path.exists` does not see a symbolic link that leads nowhere.
pub data Node : Type 0 where
  absent socket dangling directory other : Node

pub record Owned : Type 0 where
  pub mode : ℕ
  pub group : Option ℕ

-- The sockets of the listener: none before `_bind`, then open, and closed by `shutdown`.
pub data Listener : Type 0 where
  unbound listening closed : Listener

-- How far `serve_forever` is: it waits in `accept`, or it has returned or raised.
pub data Phase : Type 0 where
  accepting returned raised : Phase

pub record Life : Type 0 where
  pub run_dir : Owned
  pub node : Node
  pub permissions : Owned
  pub listener : Listener
  pub stop : Bool
  pub phase : Phase
  -- the connections that have got a thread, in order
  pub handled : List ℕ

abbrev pub exists : Node → Bool
exists absent = false
exists dangling = false
exists _ = true

abbrev pub is_socket : Node → Bool
is_socket socket = true
is_socket _ = false

abbrev pub chowned : Option ℕ → Bool → Option ℕ
chowned group allowed = if allowed then group else none

abbrev pub or_group : Option ℕ → Option ℕ → Option ℕ
or_group none old = old
or_group (some gid) old = some gid

-- 0o770 and 0o660
abbrev pub run_mode : ℕ
run_mode = 504

abbrev pub socket_mode : ℕ
socket_mode = 432

abbrev pub prepared : Option ℕ → Life → Life
prepared gid s = record s {
  run_dir = record { mode = run_mode; group = or_group gid s.run_dir.group };
}

-- a new socket at the path, that is listened on; `bind` fails at a link that leads nowhere
abbrev pub opened : Option ℕ → Node → Life → Life
opened gid dangling s = record s { phase = raised }
opened gid node s = record s {
  node = socket;
  permissions = record { mode = socket_mode; group = gid };
  listener = listening;
}

abbrev pub bound : Node → Option ℕ → Life → Life
bound node gid s =
    if exists node && not (is_socket node) then record s { phase = raised } else opened gid node s

-- `_bind`, given the group `msp-broker` if there is one, and whether the run directory may be given
-- to it
unfoldable pub bind : Option ℕ → Bool → Life → Life
bind group allowed s = let gid = chowned group allowed in bound s.node gid (prepared gid s)

-- `shutdown`, the handler of SIGTERM and SIGINT
abbrev closes : Listener → Listener
closes unbound = unbound
closes _ = closed

unfoldable pub shutdown : Life → Life
shutdown s = record s { stop = true; listener = closes s.listener }

-- What happens while the server waits in `accept`: a signal is handled, or `accept` returns a
-- connection, is timed out, or raises another OSError.
pub data Event : Type 0 where
  signal timed_out failure : Event
  accepted : ℕ → Event

-- `os.unlink` of the socket's path, whose OSError is ignored
abbrev pub unlinked : Node → Node
unlinked directory = directory
unlinked _ = absent

abbrev pub after_loop : Life → Life
after_loop s = record s { phase = returned; node = unlinked s.node }

-- the test of the loop
unfoldable pub next_round : Life → Life
next_round s = if s.stop then after_loop s else s

-- `threading.Thread(target=self._handle, args=(conn,)).start()`
abbrev pub with_conn : ℕ → Life → Life
with_conn conn s = record s { handled = s.handled ++ conn ∷ [] }

unfoldable pub accept : Event → Life → Life
unfolding shutdown next_round
accept signal s = shutdown s
accept timed_out s = next_round s
accept failure s = after_loop s
accept (accepted conn) s = next_round (with_conn conn s)

abbrev pub is_accepting : Phase → Bool
is_accepting accepting = true
is_accepting _ = false

-- The loop, over what happens while it waits.
unfoldable pub serve_loop : Life → List Event → Life
unfolding accept
serve_loop s [] = s
serve_loop s (e ∷ es) = serve_loop (if is_accepting s.phase then accept e s else s) es

-- the loop is reached if `_bind` does not raise
abbrev entered : Life → Life
entered s = if is_accepting s.phase then next_round s else s

unfoldable pub serve_forever : Option ℕ → Bool → Life → List Event → Life
unfolding bind serve_loop next_round
serve_forever group allowed s es = serve_loop (entered (bind group allowed s)) es
