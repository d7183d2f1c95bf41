-- ===== src/Server/Callers.antt =====
-- Whose connections can change what (roles/msp_broker/files/broker/server.py, authorize.py there).
use msp_fleet_public.Base.{ℕ, String, false, ◌≡◌, refl, subst, Option, none, some, List, []}
use msp_fleet_public.Broker.{Broker, World}
use msp_fleet_public.Failure.{Result, ok, err}
use msp_fleet_public.Policy.{Actor, actor_for}
use msp_fleet_public.Policy.Exact.{may_approve, actor_for_exact}
use msp_fleet_public.Server.{
  Outside, Decoded, Call, call, wrong, Closed, answer, answer_covered, answer_decoded, answer_line,
  handle_connection, receive, first_part,
}
use msp_fleet_public.Service.Hosts.{AllReadsAreFree, host-handle_refused}
use msp_fleet_public.Service.Life.Requests.{handle-Moves}
use msp_fleet_public.Service.Requests.{Request, handle}
use msp_fleet_public.Store.Moves.{Moves, Moves-refl}
use msp_fleet_public.Value.{obj}

-- What holds of a world and of that which any request of the caller leaves.
module _ {H : Type 0} (b : Broker H) (o : Outside) (uid gid : ℕ) (w : World H)
    (P : World H → Type 0) (here : P w)
    (after : (actor : Actor) (r : Request)
      → actor_for uid gid b.policy o.pw_lookup o.group_list ≡ ok actor
      → P (handle b actor r w).1) where
  reached :
      (c d : Closed) (v w' : World H)
      → P v
      → Path (Option (Closed × World H)) (some (c, v)) (some (d, w'))
      → P w'
  reached c d v w' p e = let same : v ≡ w' = cc in subst P same p

  performed :
      (x : Result Actor) (c : Call)
      → actor_for uid gid b.policy o.pw_lookup o.group_list ≡ x
      → P (answer b x c w).1
  performed (err e) c known = here
  performed (ok actor) (call r) known = after actor r known
  performed (ok actor) (wrong why) known = here

  covered :
      (c : Option Call) (d : Closed) (w' : World H)
      → answer_covered b (actor_for uid gid b.policy o.pw_lookup o.group_list) c w ≡ some (d, w')
      → P w'
  covered none d w' e = cc
  covered (some c) d w' e =
      reached _ d _ w' (performed (actor_for uid gid b.policy o.pw_lookup o.group_list) c refl) e

  decoded :
      (v : Decoded) (d : Closed) (w' : World H)
      → answer_decoded b o uid gid v w ≡ some (d, w')
      → P w'
  decoded Decoded.invalid d w' e = reached _ d _ w' here e
  decoded Decoded.raised d w' e = reached _ d _ w' here e
  decoded (Decoded.value (obj fs)) d w' e = covered _ d w' e
  decoded (Decoded.value _) d w' e = reached _ d _ w' here e

  line :
      (bytes : Option (List ℕ)) (d : Closed) (w' : World H)
      → answer_line b o uid gid bytes w ≡ some (d, w')
      → P w'
  line none d w' e = reached _ d _ w' here e
  line (some bytes) d w' e = decoded (o.loads (first_part bytes)) d w' e

  connected :
      (chunks : List (List ℕ)) (d : Closed) (w' : World H)
      → handle_connection b o uid gid chunks w ≡ some (d, w')
      → P w'
  unfolding handle_connection
  connected chunks d w' e = line (receive [] chunks) d w' e

module _ {H : Type 0} (b : Broker H) where
  -- Whatever bytes arrive on a connection: each stored proposal keeps its frozen columns and stays as
  -- it is or has its state moved forward.
  pub handle_connection-Moves :
      (o : Outside) (uid gid : ℕ) (chunks : List (List ℕ)) (w w' : World H) (c : Closed)
      → handle_connection b o uid gid chunks w ≡ some (c, w')
      → Moves w.proposals w'.proposals
  handle_connection-Moves o uid gid chunks w w' c e =
      connected b o uid gid w (λ v. Moves w.proposals v.proposals) (Moves-refl w.proposals)
        (λ actor r known. handle-Moves b actor r w) chunks c w' e

  not_approver :
      (uid gid : ℕ) (o : Outside) (name : String) (actor : Actor)
      → o.pw_lookup uid ≡ some name
      → may_approve uid gid b.policy o.group_list name ≡ false
      → actor_for uid gid b.policy o.pw_lookup o.group_list ≡ ok actor
      → actor.can_approve ≡ false
  not_approver uid gid o name actor known may e =
      let f = actor_for_exact uid gid b.policy o.pw_lookup o.group_list name known in cc

  -- Whatever bytes a user sends who is not root, no listed approver and in no listed approver group:
  -- the managed host stays as it is, if the prechecks and reads of the adapters only read.
  pub host-handle_connection :
      (free : AllReadsAreFree b) (o : Outside) (uid gid : ℕ) (name : String)
      (chunks : List (List ℕ)) (w w' : World H) (c : Closed)
      → o.pw_lookup uid ≡ some name
      → may_approve uid gid b.policy o.group_list name ≡ false
      → handle_connection b o uid gid chunks w ≡ some (c, w')
      → w'.host ≡ w.host
  host-handle_connection free o uid gid name chunks w w' c known may e =
      connected b o uid gid w (λ v. v.host ≡ w.host) refl
        (λ actor r k.
          host-handle_refused b free actor r w (not_approver uid gid o name actor known may k))
        chunks c w' e
