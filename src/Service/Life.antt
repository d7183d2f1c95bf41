-- ===== src/Service/Life.antt =====
-- Statements about the proposals under requests, after `Store.Moves`: that they have moved on, and
-- that one of them is in a given state (roles/msp_broker/files/broker/service.py).
pub mod Running
pub mod Deciding
pub mod Proposing
pub mod Requests
use msp_fleet_public.Base.{
  ℕ, String, Bool, true, false, ◌≡◌, refl, Option, none, some, arith, ◌==◌, inl, inr, Bool-cases,
}
use msp_fleet_public.Broker.{Broker, World}
use msp_fleet_public.Broker.Actions.{known, known_proposal, expire, write_row, insert_row, now}
use msp_fleet_public.Broker.Frames.{TableFrame, frame_rules}
use msp_fleet_public.Exec.{Exec, modify, ◌>>=◌}
use msp_fleet_public.Exec.Rules.{Post, Triple, Keeps, Triple-bind}
use msp_fleet_public.Failure.{Result, ok, err}
use msp_fleet_public.Store.{Table, get, update}
use msp_fleet_public.Store.Moves.{
  Follows, same, next, frozen, leads, is_final, Moves, Moves-trans, Moves-write, found-update,
  Moves-expire_stale,
}
use msp_fleet_public.Store.Rows.{Row, Status, is_proposed}

-- The proposals have moved on since they were `t`.
pub record Since {H : Type 0} (t : Table) (w : World H) : Type 0 where
  pub moves : Moves t w.proposals

-- So they have, and the proposal `id` is there in the state `st`.
pub record At {H : Type 0} (t : Table) (id : String) (st : Status) (w : World H) : Type 0 where
  pub moves : Moves t w.proposals
  pub row : Row
  pub found : get w.proposals id ≡ some row
  pub in_state : row.status ≡ st

module _ {H : Type 0} {t : Table} where
  pub Since-frame : TableFrame {H = H} (Since t)
  Since-frame = record { moved = λ w v p s. record { moves = rw p s.moves } }

  pub At-frame : {id : String} {st : Status} → TableFrame {H = H} (At t id st)
  At-frame = record {
    moved = λ w v p a. record {
      moves = rw p a.moves;
      row = a.row;
      found = rw p a.found;
      in_state = a.in_state;
    };
  }

  pub At-Since : {id : String} {st : Status} (w : World H) → At t id st w → Since t w
  At-Since w a = record { moves = a.moves }

  pub expire-Since : (b : Broker H) → Keeps (Since t) (expire b)
  unfolding expire
  expire-Since b = record {
    at = λ w s. record {
      moves = Moves-trans t w.proposals _ s.moves (Moves-expire_stale _ w.proposals);
    };
  }

-- The proposals have moved on, and the proposal `id` is decided for good.
pub record Done {H : Type 0} (t : Table) (id : String) (w : World H) : Type 0 where
  pub moves : Moves t w.proposals
  pub row : Row
  pub found : get w.proposals id ≡ some row
  pub final : is_final row.status ≡ true

module _ {H : Type 0} {t : Table} {id : String} where
  pub Done-frame : TableFrame {H = H} (Done t id)
  Done-frame = record {
    moved = λ w v p d. record {
      moves = rw p d.moves;
      row = d.row;
      found = rw p d.found;
      final = d.final;
    };
  }

  pub Done-Since : (w : World H) → Done t id w → Since t w
  Done-Since w d = record { moves = d.moves }

  pub At-Done : {st : Status} → is_final st ≡ true → (w : World H) → At t id st w → Done t id w
  At-Done {st} e w a = record {
    moves = a.moves;
    row = a.row;
    found = a.found;
    final = rw a.in_state e;
  }

-- A write of the columns that decisions write takes the row to a later state.
module _ {H : Type 0} {t : Table} {id : String} {st : Status} (st' : Status) (f : Row → Row)
    (forward : leads st st' ≡ true) (keys : (r : Row) → (f r).proposal_id ≡ r.proposal_id)
    (keeps : (r : Row) → frozen (f r) ≡ frozen r) (sets : (r : Row) → (f r).status ≡ st') where
  pub write_row-At : Triple {S = World H} (At t id st) (write_row id f) (λ _. At t id st') (Since t)
  unfolding write_row
  write_row-At = record {
    at = λ w a. record {
      moves =
          Moves-trans t w.proposals _ a.moves
            (Moves-write id f st st' keys forward keeps sets w.proposals a.row a.found a.in_state);
      row = f a.row;
      found = found-update id f w.proposals a.row keys a.found;
      in_state = sets a.row;
    };
  }

-- The proposals have moved on, and `p` is the row of `id`.
pub record Got {H : Type 0} (t : Table) (id : String) (p : Row) (w : World H) : Type 0 where
  pub moves : Moves t w.proposals
  pub found : get w.proposals id ≡ some p

module _ {H : Type 0} {t : Table} where
  known_Got :
      (b : Broker H) (id : String) (w : World H) (o : Option Row)
      → get w.proposals id ≡ o
      → Since t w
      → Post (Got t id) (Since t) (known b o, w)
  known_Got b id w none e s = s
  known_Got b id w (some p) e s = elim (Bool-cases (p.client_id == b.client.client_id)) [
    | inl h ↦ rw h (record { moves = s.moves; found = e })
    | inr h ↦ rw h s
  ]

module _ {H : Type 0} {t : Table} {id : String} where
  pub Got-Since : {p : Row} (w : World H) → Got t id p w → Since t w
  Got-Since w g = record { moves = g.moves }

  pub Got-At :
      {p : Row}
      → is_proposed p.status ≡ true
      → (w : World H) → Got t id p w
      → At t id Status.proposed w
  unfolding is_proposed
  Got-At {p} e w g = record { moves = g.moves; row = p; found = g.found; in_state = ground arith }

  pub known_proposal-Got :
      (b : Broker H) → Triple (Since t) (known_proposal b id) (Got t id) (Since t)
  unfolding known_proposal
  known_proposal-Got b = record { at = λ w s. known_Got b id w (get w.proposals id) refl s }
