-- ===== src/Server/Listener/Ended.antt =====
-- How the server's life goes on and ends (roles/msp_broker/files/broker/server.py).
use msp_fleet_public.Base.{
  ℕ, Bool, true, false, ◌≡◌, ◌≢◌, ◌⊎◌, refl, ◌∙◌, sym, ap, Option, List, [], ◌∷◌, ◌++◌, arith, inl,
  inr, if◌then◌else◌,
}
use mathlib.Core.List.{append_assoc, append-nil}
use msp_fleet_public.Server.Listener.{
  Node, Owned, Life, Phase, Event, signal, timed_out, failure, accepted, accepting, returned,
  raised, absent, socket, dangling, directory, other, chowned, bound, bind, next_round, accept,
  serve_loop, after_loop, serve_forever, opened, prepared, with_conn, shutdown, is_accepting,
}

-- The connections of a sequence of events, up to the first that ends the loop: an error of `accept`,
-- or the first event behind a signal, which may still be a connection.
abbrev pub connections : Bool → List Event → List ℕ
connections stopping [] = []
connections stopping (signal ∷ es) = connections true es
connections stopping (failure ∷ es) = []
connections true (timed_out ∷ es) = []
connections true (accepted conn ∷ es) = conn ∷ []
connections false (timed_out ∷ es) = connections false es
connections false (accepted conn ∷ es) = conn ∷ connections false es

-- The loop ends in these events.
abbrev pub ends : Bool → List Event → Bool
ends stopping [] = false
ends stopping (signal ∷ es) = ends true es
ends stopping (failure ∷ es) = true
ends true (timed_out ∷ es) = true
ends true (accepted conn ∷ es) = true
ends false (timed_out ∷ es) = ends false es
ends false (accepted conn ∷ es) = ends false es

abbrev pub phase_after : Bool → Phase
phase_after true = returned
phase_after false = accepting

abbrev pub left_at : Bool → Node
left_at true = absent
left_at false = socket

serve_loop-done : (s : Life) (es : List Event) → is_accepting s.phase ≡ false → serve_loop s es ≡ s
unfolding serve_loop
serve_loop-done s [] h = refl
serve_loop-done s (e ∷ es) h = ground (arith, serve_loop-done s es h)

-- What the loop has done behind some events.
pub record Served (s : Life) (stopping : Bool) (es : List Event) (s' : Life) : Type 0 where
  pub conns : s'.handled ≡ s.handled ++ connections stopping es
  pub phase : s'.phase ≡ phase_after (ends stopping es)
  pub node : s'.node ≡ left_at (ends stopping es)
  pub permissions : s'.permissions ≡ s.permissions
  pub run_dir : s'.run_dir ≡ s.run_dir

serve_loop-accept :
    (s : Life) (e : Event) (es : List Event)
    → s.phase ≡ accepting
    → serve_loop s (e ∷ es) ≡ serve_loop (accept e s) es
unfolding serve_loop
serve_loop-accept s e es p =
    ap (λ (x : Phase). serve_loop (if is_accepting x then accept e s else s) es) p

-- a state in which the loop has returned
serve_loop-ended : (s : Life) (es : List Event) → s.phase ≡ returned → serve_loop s es ≡ s
serve_loop-ended s es p = serve_loop-done s es (ap is_accepting p)

-- the loop ends at an event, with a state that has these connections
returned-Served :
    (s u : Life) (b : Bool) (e : Event) (es : List Event)
    → s.phase ≡ accepting
    → accept e s ≡ after_loop u
    → u.node ≡ socket
    → u.permissions ≡ s.permissions
    → u.run_dir ≡ s.run_dir
    → u.handled ≡ s.handled ++ connections b (e ∷ es)
    → ends b (e ∷ es) ≡ true
    → Served s b (e ∷ es) (serve_loop s (e ∷ es))
returned-Served s u b e es p at n kept kept' conns last =
    let all_done : serve_loop s (e ∷ es) ≡ after_loop u =
      serve_loop-accept s e es p
      ∙ ap (λ (x : Life). serve_loop x es) at
      ∙ serve_loop-ended (after_loop u) es refl in
    rw all_done record {
      conns = conns;
      phase = ap phase_after (sym last);
      node = ground (arith, n, last);
      permissions = kept;
      run_dir = kept';
    }

serve_loop-Served :
    (s : Life) (es : List Event) (b : Bool)
    → s.stop ≡ b
    → s.phase ≡ accepting
    → s.node ≡ socket
    → Served s b es (serve_loop s es)
unfolding accept next_round shutdown
serve_loop-Served s [] b q p n =
    unfold serve_loop in
    record {
      conns = sym (append-nil s.handled);
      phase = p;
      node = n;
      permissions = refl;
      run_dir = refl;
    }
serve_loop-Served s (signal ∷ es) b q p n =
    let r = serve_loop-Served (shutdown s) es true refl p n in
    rw (serve_loop-accept s signal es p) (record {
      conns = r.conns;
      phase = r.phase;
      node = r.node;
      permissions = r.permissions;
      run_dir = r.run_dir;
    })
serve_loop-Served s (failure ∷ es) b q p n =
    returned-Served s s b failure es p refl n refl refl (sym (append-nil s.handled)) refl
serve_loop-Served s (timed_out ∷ es) true q p n =
    returned-Served s s true timed_out es p (rw q refl) n refl refl (sym (append-nil s.handled))
      refl
serve_loop-Served s (timed_out ∷ es) false q p n =
    let r = serve_loop-Served s es false q p n in
    let same : serve_loop s (timed_out ∷ es) ≡ serve_loop s es =
      serve_loop-accept s timed_out es p
      ∙ ap (λ (x : Bool). serve_loop (if x then after_loop s else s) es) q in
    rw same (record {
      conns = r.conns;
      phase = r.phase;
      node = r.node;
      permissions = r.permissions;
      run_dir = r.run_dir;
    })
serve_loop-Served s (accepted conn ∷ es) true q p n =
    returned-Served s (with_conn conn s) true (accepted conn) es p (rw q refl) n refl refl refl refl
serve_loop-Served s (accepted conn ∷ es) false q p n =
    let t = with_conn conn s in
    let r = serve_loop-Served t es false q p n in
    let same : serve_loop s (accepted conn ∷ es) ≡ serve_loop t es =
      serve_loop-accept s (accepted conn) es p
      ∙ ap (λ (x : Bool). serve_loop (if x then after_loop t else t) es) q in
    rw same (record {
      conns = r.conns ∙ append_assoc s.handled (conn ∷ []) (connections false es);
      phase = r.phase;
      node = r.node;
      permissions = r.permissions;
      run_dir = r.run_dir;
    })

-- What the server has done behind some events, from a state before `_bind`.
pub record Serves (group : Option ℕ) (allowed : Bool) (s : Life) (es : List Event) (s' : Life)
    : Type 0 where
  pub conns : s'.handled ≡ s.handled ++ connections false es
  pub phase : s'.phase ≡ phase_after (ends false es)
  pub node : s'.node ≡ left_at (ends false es)
  pub socket_mode : s'.permissions.mode ≡ 432
  pub socket_group : s'.permissions.group ≡ chowned group allowed
  pub run_mode : s'.run_dir.mode ≡ 504

bind-opened :
    (group : Option ℕ) (allowed : Bool) (s : Life)
    → (s.node ≡ absent) ⊎ (s.node ≡ socket)
    → bind group allowed s
      ≡ opened (chowned group allowed) absent (prepared (chowned group allowed) s)
unfolding bind
bind-opened group allowed s h =
    let at = λ (x : Node). bound x (chowned group allowed) (prepared (chowned group allowed) s) in
    elim h [ inl e ↦ ap at e | inr e ↦ ap at e ]

bound_not_socket :
    (node : Node) (gid : Option ℕ) (s : Life)
    → node ≢ absent
    → node ≢ socket
    → bound node gid s ≡ record s { phase = raised }
bound_not_socket absent gid s a b = absurd (a refl)
bound_not_socket socket gid s a b = absurd (b refl)
bound_not_socket dangling gid s a b = refl
bound_not_socket directory gid s a b = refl
bound_not_socket other gid s a b = refl

-- The server over any sequence of events, if there is nothing or a socket at the path of its socket:
-- it listens on a socket of mode 0o660 that belongs to its group if the run directory may be given to
-- it, in a directory of mode 0o770. Each connection gets one thread, in order, until an error of
-- `accept` or the first event behind a signal, which may still be a connection; then, and only then,
-- it returns with the socket removed.
pub serve_forever-Serves :
    (group : Option ℕ) (allowed : Bool) (s : Life) (es : List Event)
    → s.phase ≡ accepting
    → s.stop ≡ false
    → (s.node ≡ absent) ⊎ (s.node ≡ socket)
    → Serves group allowed s es (serve_forever group allowed s es)
unfolding serve_forever next_round
serve_forever-Serves group allowed s es p q n =
    let gid = chowned group allowed in
    let t = opened gid absent (prepared gid s) in
    let r = serve_loop-Served t es false q p refl in
    let at = λ (x : Life).
      serve_loop (if is_accepting x.phase then (if x.stop then after_loop x else x) else x) es in
    let same : serve_forever group allowed s es ≡ serve_loop t es =
      ap at (bind-opened group allowed s n)
      ∙ ap
          (λ (x : Phase).
            serve_loop (if is_accepting x then (if s.stop then after_loop t else t) else t) es)
          p
      ∙ ap (λ (x : Bool). serve_loop (if x then after_loop t else t) es) q in
    rw same (record {
      conns = r.conns;
      phase = r.phase;
      node = r.node;
      socket_mode = ap (λ (x : Owned). x.mode) r.permissions;
      socket_group = ap (λ (x : Owned). x.group) r.permissions;
      run_mode = ap (λ (x : Owned). x.mode) r.run_dir;
    })

-- A file at the path of the socket that is not a socket is never replaced: the server raises, it has
-- handled no connection and listens on nothing, whatever happens, and what is at the path stays.
pub serve_forever_not_socket :
    (group : Option ℕ) (allowed : Bool) (s : Life) (es : List Event)
    → s.node ≢ absent
    → s.node ≢ socket
    → let s' = serve_forever group allowed s es in
      (s'.node ≡ s.node)
      × (s'.phase ≡ raised)
      × (s'.handled ≡ s.handled)
      × (s'.listener ≡ s.listener)
unfolding serve_forever bind
serve_forever_not_socket group allowed s es a b =
    let s' = prepared (chowned group allowed) s in
    let t = record s' { phase = raised } in
    let at = λ (x : Life).
      serve_loop (if is_accepting x.phase then (if x.stop then after_loop x else x) else x) es in
    let same : serve_forever group allowed s es ≡ t =
      ap at (bound_not_socket s.node (chowned group allowed) s' a b) ∙ serve_loop-done t es refl in
    rw same (refl, refl, refl, refl)
