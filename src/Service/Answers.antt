-- ===== src/Service/Answers.antt =====
-- Approvals that nothing stands against come to an answer (roles/msp_broker/files/broker/service.py).
pub mod Running
use msp_fleet_public.Base.{
  ℕ, suc, ◌+◌, ◌≤◌, ◌<◌, ℤ, String, Bool, true, false, not, ◌&&◌, ◌≡◌, refl, sym, ap, ◌∙◌, subst,
  Option, none, some, List, arith, ◌==◌, eq_refl, is_none, leb,
}
use msp_fleet_public.Broker.{Broker, World, Entry, free}
use msp_fleet_public.Broker.Actions.{
  now, log, get_row, write_row, own_target, present, except_all, handle_all,
}
use msp_fleet_public.Broker.Frames.{TableFrame}
use msp_fleet_public.Exec.{Exec, pure, lift, modify, ◌>>=◌}
use msp_fleet_public.Exec.Rules.{Post, Triple, Keeps, Triple-bind, Triple-pure}
use msp_fleet_public.Failure.{Fault, Result, ok, err, crash}
use msp_fleet_public.Plan.{ExecResult, Target}
use msp_fleet_public.Platform.{plan_hash}
use msp_fleet_public.Store.{get, inventory_get, update}
use msp_fleet_public.Store.Moves.{found-update}
use msp_fleet_public.Store.Rows.{Row, Status}

-- Nothing is raised.
abbrev pub Never : {S : Type 0} → S → Type 0
Never s = ⊥

module _ {H : Type 0} (id : String) where
  -- The proposal is stored, with a row of which `Q` holds.
  pub record Present (Q : Row → Type 0) (w : World H) : Type 0 where
    pub row : Row
    pub found : get w.proposals id ≡ some row
    pub fact : Q row

  -- So it is, and the inventory and the number of clock readings are known.
  pub record Still (Q : Row → Type 0) (inventory : List Target) (n : ℕ) (w : World H) : Type 0 where
    pub here : Present Q w
    pub known : w.inventory ≡ inventory
    pub ticks : w.ticks ≡ n

  pub Present-frame : {Q : Row → Type 0} → TableFrame (Present Q)
  Present-frame = record {
    moved =
        λ w v e p. record { row = p.row; found = ap (λ t. get t id) e ∙ p.found; fact = p.fact };
  }

module _ {H : Type 0} (b : Broker H) (id : String) {Q : Row → Type 0} where
  now-Present : Triple (Present id Q) (now b) (λ t. Present id Q) Never
  unfolding now
  now-Present = record { at = λ w p. record { row = p.row; found = p.found; fact = p.fact } }

  log-Present : (e : Entry) → Triple (Present id Q) (log b e) (λ u. Present id Q) Never
  unfolding log now ◌>>=◌
  log-Present e = record { at = λ w p. record { row = p.row; found = p.found; fact = p.fact } }

  now-Still :
      (inventory : List Target) (n : ℕ)
      → Triple
          (Still id Q inventory n)
          (now b)
          (λ t w. Still id Q inventory (n + 1) w × (t ≡ b.clock n))
          Never
  unfolding now
  now-Still inventory n = record {
    at = λ w s. (
      record {
        here = record { row = s.here.row; found = s.here.found; fact = s.here.fact };
        known = s.known;
        ticks = ap (λ k. k + 1) s.ticks;
      },
      ap b.clock s.ticks,
    );
  }

  log-Still :
      (e : Entry) (inventory : List Target) (n : ℕ)
      → Triple (Still id Q inventory n) (log b e) (λ u. Still id Q inventory (n + 1)) Never
  unfolding log now ◌>>=◌
  log-Still e inventory n = record {
    at = λ w s. record {
      here = record { row = s.here.row; found = s.here.found; fact = s.here.fact };
      known = s.known;
      ticks = ap (λ k. k + 1) s.ticks;
    };
  }

module _ {H : Type 0} (id : String) {Q R : Row → Type 0} (f : Row → Row)
    (keys : (r : Row) → (f r).proposal_id ≡ r.proposal_id) (sets : (r : Row) → Q r → R (f r)) where
  written :
      (w : World H)
      → Present id Q w
      → Present id R (record w { proposals = update id f w.proposals })
  written w p = record {
    row = f p.row;
    found = found-update id f w.proposals p.row keys p.found;
    fact = sets p.row p.fact;
  }

  write_row-Present : Triple {S = World H} (Present id Q) (write_row id f) (λ u. Present id R) Never
  unfolding write_row
  write_row-Present = record { at = λ w p. written w p }

  write_row-Still :
      (inventory : List Target) (n : ℕ)
      → Triple {S = World H}
          (Still id Q inventory n)
          (write_row id f)
          (λ u. Still id R inventory n)
          Never
  unfolding write_row
  write_row-Still inventory n = record {
    at = λ w s. record { here = written w s.here; known = s.known; ticks = s.ticks };
  }

module _ {H : Type 0} (id : String) {Q : Row → Type 0} where
  get_row-Present :
      Triple {S = World H} (Present id Q) (get_row id) (λ r w. Present id Q w × Q r) Never
  unfolding get_row
  get_row-Present = record { at = λ w p. rw p.found (p, p.fact) }

  get_row-Still :
      (inventory : List Target) (n : ℕ)
      → Triple {S = World H}
          (Still id Q inventory n)
          (get_row id)
          (λ r w. Still id Q inventory n w × Q r)
          Never
  unfolding get_row
  get_row-Still inventory n = record { at = λ w s. rw s.here.found (s, s.here.fact) }
