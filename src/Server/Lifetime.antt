-- ===== src/Server/Lifetime.antt =====
-- The whole life of a server (roles/msp_broker/files/broker/server.py): the connections that its loop
-- accepts, and what they do to the broker's world. The threads of the source handle connections beside
-- one another; here one connection is handled after the other, in the order of their acceptance.
use msp_fleet_public.Base.{
  ℕ, String, Bool, true, false, not, ◌≡◌, refl, sym, ap, subst, ◌∙◌, ◌⊎◌, Option, none, some, List,
  [], ◌∷◌, ◌++◌, map, all, arith, Option-cases, inl, inr,
}
use msp_fleet_public.Broker.{Broker, World}
use msp_fleet_public.Policy.Exact.{may_approve}
use msp_fleet_public.Server.{Outside, Closed, handle_connection}
use msp_fleet_public.Server.Callers.{handle_connection-Moves, host-handle_connection}
use msp_fleet_public.Server.Listener.{Life, Event, accepting, absent, socket, serve_forever}
use msp_fleet_public.Server.Listener.Ended.{connections, serve_forever-Serves}
use msp_fleet_public.Service.Hosts.{AllReadsAreFree}
use msp_fleet_public.Store.Moves.{Moves, Moves-refl, Moves-trans}

-- The other end of a connection: the user, the group, and what `recv` returns.
pub record Peer : Type 0 where
  pub uid : ℕ
  pub gid : ℕ
  pub chunks : List (List ℕ)

-- The user is known, is not root, no listed approver, and in no listed approver group.
abbrev pub named_stranger : {H : Type 0} → Broker H → Outside → Peer → Option String → Bool
named_stranger b o x none = false
named_stranger b o x (some name) = not (may_approve x.uid x.gid b.policy o.group_list name)

abbrev pub is_stranger : {H : Type 0} → Broker H → Outside → Peer → Bool
is_stranger b o x = named_stranger b o x (o.pw_lookup x.uid)

module _ {H : Type 0} (b : Broker H) (o : Outside) where
  abbrev then_closed : Option (List Closed × World H) → Closed → Option (List Closed × World H)
  then_closed none c = none
  then_closed (some (cs, w)) c = some (c ∷ cs, w)

  abbrev then_next :
      Option (Closed × World H)
      → (World H → Option (List Closed × World H))
      → Option (List Closed × World H)
  then_next none f = none
  then_next (some (c, w)) f = then_closed (f w) c

  -- none if a request is not covered
  unfoldable pub handle_peers : List Peer → World H → Option (List Closed × World H)
  handle_peers [] w = some ([], w)
  handle_peers (x ∷ xs) w =
      then_next (handle_connection b o x.uid x.gid x.chunks w) (handle_peers xs)

  -- The connections that the loop accepts, each with its peer.
  unfoldable pub server_life :
      Option ℕ → Bool → Life → List Event → (ℕ → Peer) → World H → Option (List Closed × World H)
  unfolding handle_peers serve_forever
  server_life group allowed s es peer w =
      handle_peers (map peer (serve_forever group allowed s es).handled) w

  then_closed-some :
      (r : Option (List Closed × World H)) (c : Closed) (cs : List Closed) (w' : World H)
      → then_closed r c ≡ some (cs, w')
      → (cs' : List Closed) × (r ≡ some (cs', w'))
  then_closed-some none c cs w' h = cc
  then_closed-some (some (cs', w)) c cs w' h = (cs', cc)

  then_next-some :
      (r : Option (Closed × World H)) (f : World H → Option (List Closed × World H))
      (cs : List Closed) (w' : World H)
      → then_next r f ≡ some (cs, w')
      → (c : Closed) × (v : World H) × (cs' : List Closed) × (r ≡ some (c, v))
        × (f v ≡ some (cs', w'))
  then_next-some none f cs w' h = cc
  then_next-some (some (c, v)) f cs w' h =
      let (cs', e) = then_closed-some (f v) c cs w' h in (c, v, cs', refl, e)

  module _ (P : World H → World H → Type 0) (once : (w : World H) → P w w)
      (then_on : (u v w : World H) → P u v → P v w → P u w) (fits : Peer → Bool)
      (step : (x : Peer) (c : Closed) (w w' : World H)
        → fits x ≡ true
        → handle_connection b o x.uid x.gid x.chunks w ≡ some (c, w')
        → P w w') where
    -- What each connection keeps, all of them keep.
    handle_peers-keeps :
        (xs : List Peer) (cs : List Closed) (w w' : World H)
        → all fits xs ≡ true
        → handle_peers xs w ≡ some (cs, w')
        → P w w'
    unfolding handle_peers
    handle_peers-keeps [] cs w w' f h =
        let same : w ≡ w' = cc in subst (λ (v : World H). P w v) same (once w)
    handle_peers-keeps (x ∷ xs) cs w w' f h =
        let (c, v, cs', first, rest) =
          then_next-some (handle_connection b o x.uid x.gid x.chunks w) (handle_peers xs) cs w' h in
        then_on w v w' (step x c w v (ground arith) first)
          (handle_peers-keeps xs cs' v w' (ground arith) rest)

all_of : (xs : List Peer) → all (λ x. true) xs ≡ true
all_of [] = refl
all_of (x ∷ xs) = all_of xs

module _ {H : Type 0} (b : Broker H) (o : Outside) (group : Option ℕ) (allowed : Bool) (s : Life)
    (es : List Event) (peer : ℕ → Peer) (w w' : World H) (cs : List Closed)
    (life : server_life b o group allowed s es peer w ≡ some (cs, w')) where
  -- Over the whole life of a server whose loop accepts connections that are handled one after the other,
  -- where every request on every connection is covered by the decoding (`server_life` gives `some`):
  -- every stored proposal is still stored, its frozen columns are what they were, and it is unchanged or
  -- its state has gone forward.
  pub server_life-Moves : Moves w.proposals w'.proposals
  unfolding server_life
  server_life-Moves =
      handle_peers-keeps b o (λ v v'. Moves v.proposals v'.proposals) (λ v. Moves-refl v.proposals)
        (λ u v v'. Moves-trans u.proposals v.proposals v'.proposals) (λ x. true)
        (λ x c v v' f e. handle_connection-Moves b o x.uid x.gid x.chunks v v' c e)
        (map peer (serve_forever group allowed s es).handled) cs w w'
        (all_of (map peer (serve_forever group allowed s es).handled)) life

  -- Over the whole life of a server that starts afresh with nothing or a socket at its path: if every
  -- peer that its loop accepts, up to an error of `accept` or the first event behind a signal, is a
  -- known user who is not root, no listed approver and in no listed approver group, then the managed
  -- host stays as it is, as far as the prechecks and reads of the adapters only read.
  pub host-server_life :
      AllReadsAreFree b
      → s.phase ≡ accepting
      → s.stop ≡ false
      → s.handled ≡ []
      → (s.node ≡ absent) ⊎ (s.node ≡ socket)
      → all (is_stranger b o) (map peer (connections false es)) ≡ true
      → w'.host ≡ w.host
  unfolding server_life
  host-server_life free p q none_yet n strangers =
      let served : (serve_forever group allowed s es).handled ≡ connections false es =
        (serve_forever-Serves group allowed s es p q n).conns
        ∙ ap (λ (l : List ℕ). l ++ connections false es) none_yet in
      handle_peers-keeps b o (λ v v'. v'.host ≡ v.host) (λ v. refl) (λ u v v' e e'. e' ∙ e)
        (is_stranger b o) (λ x c v v' f e. stranger x c v v' f e)
        (map peer (serve_forever group allowed s es).handled) cs w w'
        (ap (λ (l : List ℕ). all (is_stranger b o) (map peer l)) served ∙ strangers) life
    where
      stranger :
          (x : Peer) (c : Closed) (v v' : World H)
          → is_stranger b o x ≡ true
          → handle_connection b o x.uid x.gid x.chunks v ≡ some (c, v')
          → v'.host ≡ v.host
      stranger x c v v' f e =
          let at = λ (n : Option String). named_stranger b o x n in
          elim (Option-cases (o.pw_lookup x.uid)) [
            | inl m ↦ cc (ap at (sym m) ∙ f)
            | inr (name, m) ↦
                let g : not (may_approve x.uid x.gid b.policy o.group_list name) ≡ true =
                  ap at (sym m) ∙ f in
                host-handle_connection b free o x.uid x.gid name x.chunks v v' c m (ground arith) e
          ]
