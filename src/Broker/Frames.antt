-- ===== src/Broker/Frames.antt =====
-- Which statements about the world the helpers of the service keep. A statement that depends on the
-- proposals and the host alone is kept by every helper that writes neither; one that depends on the
-- proposals alone is kept by calls of adapters, and one that depends on the host alone by writes to
-- the proposals.
use msp_fleet_public.Base.{String, ◌≡◌, refl, List}
use msp_fleet_public.Adapter.{Files}
use msp_fleet_public.Broker.{Broker, World, Entry, Lock, free, held, unopenable}
use msp_fleet_public.Broker.Actions.{
  on_host, now, new_id, expire, log, adapter, known_proposal, own_target, require_read,
  require_approve, get_row, write_row, acquire, acquire_at,
}
use msp_fleet_public.Exec.{Exec, modify}
use msp_fleet_public.Exec.Keeps.{Keeps-lift, Keeps-refuse_if, keeps_rules}
use msp_fleet_public.Exec.Rules.{Post, Keeps}
use msp_fleet_public.Failure.{Result, ok, err}
use msp_fleet_public.Policy.{Actor}
use msp_fleet_public.Store.Rows.{Row, Receipt}

module _ {H : Type 0} where
  pub record Frame (P : World H → Type 0) : Type 0 where
    pub moved : (w v : World H) → v.proposals ≡ w.proposals → v.host ≡ w.host → P w → P v

  pub record TableFrame (P : World H → Type 0) : Type 0 where
    pub moved : (w v : World H) → v.proposals ≡ w.proposals → P w → P v

  pub record HostFrame (P : World H → Type 0) : Type 0 where
    pub moved : (w v : World H) → v.host ≡ w.host → P w → P v

module _ {H : Type 0} {P : World H → Type 0} where
  pub TableFrame-Frame : TableFrame P → Frame P
  TableFrame-Frame f = record { moved = λ w v p q. f.moved w v p }

  pub HostFrame-Frame : HostFrame P → Frame P
  HostFrame-Frame f = record { moved = λ w v p q. f.moved w v q }

module _ {H : Type 0} {P : World H → Type 0} where
  pub Keeps-now : (b : Broker H) → Frame P → Keeps P (now b)
  unfolding now
  Keeps-now b f = record { at = λ w h. f.moved w _ refl refl h }

  pub Keeps-new_id : (b : Broker H) → Frame P → Keeps P (new_id b)
  unfolding new_id
  Keeps-new_id b f = record { at = λ w h. f.moved w _ refl refl h }

  pub Keeps-log : (b : Broker H) (e : Entry) → Frame P → Keeps P (log b e)
  unfolding log
  Keeps-log b e f = record { at = λ w h. f.moved w _ refl refl h }

  pub Keeps-adapter : (b : Broker H) (name : String) → Keeps P (adapter b name)
  unfolding adapter
  Keeps-adapter b name = Keeps-lift _

  pub Keeps-receipts :
      (g : World H → List (String × Receipt))
      → Frame P
      → Keeps P (modify (λ w. record w { receipts = g w }))
  Keeps-receipts g f = record { at = λ w h. f.moved w _ refl refl h }

  pub Keeps-files :
      (g : World H → Files) → Frame P → Keeps P (modify (λ w. record w { files = g w }))
  Keeps-files g f = record { at = λ w h. f.moved w _ refl refl h }

  pub Keeps-require_read : (actor : Actor) → Keeps P (require_read actor)
  unfolding require_read
  Keeps-require_read actor = Keeps-refuse_if _ _

  pub Keeps-require_approve : (actor : Actor) → Keeps P (require_approve actor)
  unfolding require_approve
  Keeps-require_approve actor = Keeps-refuse_if _ _

-- A result beside the world that it was read from.
module _ {H A : Type 0} where
  still : (P : World H → Type 0) (r : Result A) (w : World H) → P w → Post (λ _. P) P (r, w)
  still P (ok a) w h = h
  still P (err e) w h = h

module _ {H : Type 0} {P : World H → Type 0} where
  pub Keeps-known_proposal : (b : Broker H) (id : String) → Keeps P (known_proposal b id)
  unfolding known_proposal
  Keeps-known_proposal b id = record { at = λ w h. still P _ w h }

  pub Keeps-own_target : (b : Broker H) (id : String) → Keeps P (own_target b id)
  unfolding own_target
  Keeps-own_target b id = record { at = λ w h. h }

  pub Keeps-get_row : (id : String) → Keeps P (get_row id)
  unfolding get_row
  Keeps-get_row id = record { at = λ w h. still P _ w h }

  acquired : (l : Lock) (w : World H) → Frame P → P w → Post (λ _. P) P (acquire_at l w)
  acquired free w f h = f.moved w _ refl refl h
  acquired held w f h = h
  acquired unopenable w f h = h

  pub Keeps-acquire : Frame P → Keeps P acquire
  unfolding acquire
  Keeps-acquire f = record { at = λ w h. acquired w.lock w f h }

  pub Keeps-write_row : (id : String) (g : Row → Row) → HostFrame P → Keeps P (write_row id g)
  unfolding write_row
  Keeps-write_row id g f = record { at = λ w h. f.moved w _ refl h }

  pub Keeps-expire : (b : Broker H) → HostFrame P → Keeps P (expire b)
  unfolding expire
  Keeps-expire b f = record { at = λ w h. f.moved w _ refl h }

module _ {H A : Type 0} {P : World H → Type 0} where
  pub Keeps-on_host : (m : Exec H A) → TableFrame P → Keeps P (on_host m)
  unfolding on_host
  Keeps-on_host m f = record { at = λ w h. still P _ _ (f.moved w _ refl h) }

pub ruleset frame_rules = (
  keeps_rules, TableFrame-Frame, HostFrame-Frame, Keeps-now, Keeps-new_id, Keeps-log, Keeps-adapter,
  Keeps-require_read, Keeps-require_approve, Keeps-known_proposal, Keeps-own_target, Keeps-get_row,
  Keeps-acquire,
)

pub ruleset table_rules = (frame_rules, Keeps-on_host)

pub ruleset host_rules = (frame_rules, Keeps-write_row, Keeps-expire)
