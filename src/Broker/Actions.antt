-- ===== src/Broker/Actions.antt =====
-- The helpers of `BrokerService` that read the clock, the tables and the lock, and the ways of the
-- source to catch an exception (roles/msp_broker/files/broker/service.py).
use msp_fleet_public.Base.{
  ℕ, ◌+◌, String, not, Option, none, some, [], ◌∷◌, ◌++◌, ◌==◌, if◌then◌else◌,
}
use msp_fleet_public.Adapter.{Adapter}
use msp_fleet_public.Broker.{Broker, World, Entry, Lock, free, held, unopenable}
use msp_fleet_public.Exec.{Exec, lift, modify, refuse_if, ◌>>=◌}
use msp_fleet_public.Failure.{
  Fault, Result, ok, err, refused, adapter_error, crash, not_permitted, not_an_approver,
  unknown_proposal, adapter_unavailable, busy, cannot_lock,
}
use msp_fleet_public.Plan.{Target}
use msp_fleet_public.Policy.{Actor}
use msp_fleet_public.Store.{Table, get, insert_proposal, update, expire_stale, inventory_get}
use msp_fleet_public.Store.Rows.{Row}
use msp_fleet_public.Value.{lookup}

-- A value that must be there: `None["key"]` raises a TypeError.
abbrev pub present : {A : Type 0} → Option A → Fault → Result A
present none e = err e
present (some a) e = ok a

module _ {H A : Type 0} where
  -- a call of an adapter
  unfoldable pub on_host : Exec H A → Exec (World H) A
  on_host m w = let (r, h) = m w.host in (r, record w { host = h })

module _ {S A : Type 0} where
  -- `try: m` / `except AdapterError as exc: handler(exc)`
  abbrev pub handle_adapter_error : (String → Exec S A) → Result A × S → Result A × S
  handle_adapter_error handler (err (adapter_error e), s) = handler e s
  handle_adapter_error handler r = r

  unfoldable pub except_adapter_error : Exec S A → (String → Exec S A) → Exec S A
  except_adapter_error m handler s = handle_adapter_error handler (m s)

  -- `try: m` / `except Exception as exc: handler(exc)`
  abbrev pub handle_all : (Fault → A) → Result A × S → Result A × S
  handle_all handler (ok a, s) = (ok a, s)
  handle_all handler (err e, s) = (ok (handler e), s)

  unfoldable pub except_all : Exec S A → (Fault → A) → Exec S A
  except_all m handler s = handle_all handler (m s)

  -- `try: m` / `finally: cleanup`
  unfoldable pub finally : Exec S A → (S → S) → Exec S A
  finally m cleanup s = let (r, s') = m s in (r, cleanup s')

module _ {H : Type 0} (b : Broker H) where
  -- `_now`
  unfoldable pub now : Exec (World H) ℕ
  now w = (ok (b.clock w.ticks), record w { ticks = w.ticks + 1 })

  -- `str(uuid.uuid4())`
  unfoldable pub new_id : Exec (World H) String
  new_id w = (ok (b.uuid w.ids), record w { ids = w.ids + 1 })

  -- `_expire`
  unfoldable pub expire : Exec (World H) (Unit {0})
  unfolding now ◌>>=◌
  expire = do t ← now; modify (λ w. record w { proposals = expire_stale t w.proposals })

  -- `_log`: a failure to write is swallowed
  unfoldable pub log : Entry → Exec (World H) (Unit {0})
  unfolding now ◌>>=◌
  log e = do t ← now; modify (λ w. record w { log = w.log ++ (t, e) ∷ [] })

  -- `_adapter`
  unfoldable pub adapter : String → Exec (World H) (Adapter H)
  adapter name = lift (present (lookup name b.adapters) (refused (adapter_unavailable name)))

  abbrev pub known : Option Row → Result Row
  known none = err (refused unknown_proposal)
  known (some p) =
      if p.client_id == b.client.client_id then ok p else err (refused unknown_proposal)

  -- `store.get`, and the refusal of a proposal that is not there or is another client's
  unfoldable pub known_proposal : String → Exec (World H) Row
  known_proposal id w = (known (get w.proposals id), w)

  abbrev ours : Option Target → Option Target
  ours none = none
  ours (some t) = if t.client_id == b.client.client_id then some t else none

  -- `inventory_get`, and the test for another client's target
  unfoldable pub own_target : String → Exec (World H) (Option Target)
  own_target id w = (ok (ours (inventory_get w.inventory id)), w)

module _ {H : Type 0} where
  -- `_require_read` and `_require_approve`
  unfoldable pub require_read : Actor → Exec (World H) (Unit {0})
  require_read actor = refuse_if (not actor.can_read) not_permitted

  unfoldable pub require_approve : Actor → Exec (World H) (Unit {0})
  require_approve actor = refuse_if (not actor.can_approve) not_an_approver

  -- `self.store.get(id)` where the row is known to be there
  unfoldable pub get_row : String → Exec (World H) Row
  get_row id w = (present (get w.proposals id) crash, w)

  -- `self.store.update(id, ...)`
  unfoldable pub write_row : String → (Row → Row) → Exec (World H) (Unit {0})
  write_row id f = modify (λ w. record w { proposals = update id f w.proposals })

  abbrev pub stored : World H → Result Table → Result (Unit {0}) × World H
  stored w (ok t) = (ok tt, record w { proposals = t })
  stored w (err e) = (err e, w)

  -- `self.store.insert_proposal(...)`
  unfoldable pub insert_row : Row → Exec (World H) (Unit {0})
  insert_row r w = stored w (insert_proposal r w.proposals)

  abbrev pub acquire_at : Lock → World H → Result (Unit {0}) × World H
  acquire_at free w = (ok tt, record w { lock = held })
  acquire_at held w = (err (refused busy), w)
  acquire_at unopenable w = (err (refused cannot_lock), w)

  -- `_lock`, with the refusal of a lock that is held
  unfoldable pub acquire : Exec (World H) (Unit {0})
  acquire w = acquire_at w.lock w

  -- `_unlock`
  abbrev pub release : World H → World H
  release w = record w { lock = free }
