-- ===== src/Protocol/Reach.antt =====
-- Runs of the engine: changes of state, with ticks of the clock and questions to the timers between.
use xge_ptpv.Common.{
  ℕ, ◌<◌, ◌≡◌, refl, sym, ◌∙◌, ap, Bool, false, length-set, get_or, set, get_or-set_self,
  get_or-set_ne, if_rule, leb, arith,
}
use native.Mathlib.Decide.{ℕ_discrete}
use xge_ptpv.Common.Int.{ℤ, pos, int32}
use xge_ptpv.Datatypes.{IntervalTimer, PortState}
use xge_ptpv.Timer.{
  Timers, timer_array_size, idle_timer, timer_at, is_positive, catch_alarm, update_one,
  timer_update, read_expire, timer_expired,
}
use xge_ptpv.Timer.Update.{length-update_all, get_or-update_all}
use xge_ptpv.Protocol.{
  Engine, to_state, sync_interval_timer, announce_interval_timer, announce_receipt_timer,
}
use xge_ptpv.Protocol.Intervals.{Has}
use xge_ptpv.Protocol.Quiet.{RightTimers}
use xge_ptpv.Protocol.States.{to_state-RightTimers}

abbrev pub with_timers : Timers → Engine → Engine
with_timers t e = record e { timers = t }

-- What the engine may come to from `e₀`.
pub data Reaches (e₀ : Engine) : Engine → Type 0 where
  here : Reaches e₀ e₀
  moves : (s : PortState) (e : Engine) → Reaches e₀ e → Reaches e₀ (to_state s e)
  ticks : (e : Engine) → Reaches e₀ e → Reaches e₀ (with_timers (catch_alarm e.timers) e)
  asks :
      (i : ℕ) (e : Engine) → Reaches e₀ e → Reaches e₀ (with_timers (timer_expired i e.timers).1 e)

update_one-interval : (delta : ℤ) (t : IntervalTimer) → (update_one delta t).interval ≡ t.interval
unfolding update_one
update_one-interval delta t = ground arith

timer_update-Has :
    (j : ℕ) (z : ℤ) (t : Timers) → j < timer_array_size → Has j z t → Has j z (timer_update t)
unfolding timer_update
timer_update-Has j z t hj h =
    let delta = int32 (pos t.elapsed) in
    if_rule (Has j z) (is_positive delta)
      (λ p. record {
        size = length-update_all timer_array_size delta t.itimer ∙ h.size;
        interval_is =
            ap (λ v. v.interval)
              (get_or-update_all timer_array_size j delta t.itimer hj (omega (arith, h.size)))
            ∙ update_one-interval delta (timer_at t j)
            ∙ h.interval_is;
      })
      (λ p. record { size = h.size; interval_is = h.interval_is })

read_expire-Has :
    (i j : ℕ) (z : ℤ) (t : Timers) → j < timer_array_size → Has j z t → Has j z (read_expire i t).1
unfolding read_expire
read_expire-Has i j z t hj h =
    if_rule (λ (r : Bool × Timers). Has j z r.1) (leb timer_array_size i) (λ p. h)
      (λ p.
        if_rule (λ (r : Bool × Timers). Has j z r.1) (timer_at t i).expire
          (λ q. record {
            size = length-set t.itimer i read ∙ h.size;
            interval_is = elim (ℕ_discrete i j) [
              | yes e ↦
                  ap (λ k. (get_or (set t.itimer i read) k idle_timer).interval) (sym e)
                  ∙ ap (λ v. v.interval)
                      (get_or-set_self t.itimer i read idle_timer (omega (arith, h.size)))
                  ∙ ap (λ k. (timer_at t k).interval) e
                  ∙ h.interval_is
              | no d ↦
                  ap (λ v. v.interval) (get_or-set_ne t.itimer i j read idle_timer d)
                  ∙ h.interval_is
            ];
          })
          (λ q. h))
  where
    read : IntervalTimer
    read = record (timer_at t i) { expire = false }

pub asks-RightTimers :
    (i : ℕ) (s : PortState) (t : Timers) → RightTimers s t → RightTimers s (timer_expired i t).1
unfolding timer_expired
asks-RightTimers i s t r =
    let keeps : (j : ℕ)
        → j < timer_array_size
        → Has j (pos 0) t
        → Has j (pos 0) (read_expire i (timer_update t)).1 =
      λ j hj h.
        read_expire-Has i j (pos 0) (timer_update t) hj (timer_update-Has j (pos 0) t hj h) in
    let any =
      read_expire-Has i 0 _ (timer_update t) (omega arith)
        (timer_update-Has 0 _ t (omega arith) (record { size = r.size; interval_is = refl })) in
    record {
      size = any.size;
      syncs = λ e. keeps sync_interval_timer (omega arith) (r.syncs e);
      announces = λ e. keeps announce_interval_timer (omega arith) (r.announces e);
      waits = λ e. keeps announce_receipt_timer (omega arith) (r.waits e);
    }

pub ticks-RightTimers :
    (s : PortState) (t : Timers) → RightTimers s t → RightTimers s (catch_alarm t)
unfolding catch_alarm
ticks-RightTimers s t r = record {
  size = r.size;
  syncs = λ e. let h = r.syncs e in record { size = h.size; interval_is = h.interval_is };
  announces = λ e. let h = r.announces e in record { size = h.size; interval_is = h.interval_is };
  waits = λ e. let h = r.waits e in record { size = h.size; interval_is = h.interval_is };
}

-- However the engine goes through its states, with whatever time in between and whichever timers
-- are asked: if the timers of Sync and Announce ran in no state but the master's, and the wait for
-- announces in none but listening, passive and slave, at the start, so it is in every state reached.
pub Reaches-RightTimers :
    (e₀ e : Engine)
    → RightTimers e₀.clock.port_state e₀.timers
    → Reaches e₀ e
    → RightTimers e.clock.port_state e.timers
Reaches-RightTimers e₀ e r here = r
Reaches-RightTimers e₀ _ r (moves s e' h) =
    (to_state-RightTimers s e' (Reaches-RightTimers e₀ e' r h)).0
Reaches-RightTimers e₀ _ r (ticks e' h) =
    ticks-RightTimers e'.clock.port_state e'.timers (Reaches-RightTimers e₀ e' r h)
Reaches-RightTimers e₀ _ r (asks i e' h) =
    asks-RightTimers i e'.clock.port_state e'.timers (Reaches-RightTimers e₀ e' r h)
