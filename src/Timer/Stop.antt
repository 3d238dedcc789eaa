-- ===== src/Timer/Stop.antt =====
-- What a timer that is stopped still reports.
use xge_ptpv.Common.{
  ℕ, zero, suc, ◌<◌, ◌≡◌, refl, sym, ◌∙◌, ap, Bool, true, false, List, [], ◌∷◌, length, get_or,
  length-set, get_or-set_self, if_rule, leb, arith,
}
use xge_ptpv.Common.Int.{ℤ, pos, int32}
use xge_ptpv.Datatypes.{IntervalTimer}
use xge_ptpv.Timer.{
  Timers, timer_array_size, idle_timer, timer_at, catch_alarm, is_positive, update_one, update_all,
  timer_update, read_expire, timer_expired, timer_stop,
}
use xge_ptpv.Timer.Update.{length-update_all, get_or-update_all}
use xge_ptpv.Timer.Poll.{alarms, poll}
use xge_ptpv.Timer.Expiry.{all_quiet}

-- Timer `i` is stopped, and its latch is `e`.
pub record Stopped (i : ℕ) (e : Bool) (t : Timers) : Type 0 where
  pub interval_is : (timer_at t i).interval ≡ pos 0
  pub latch : (timer_at t i).expire ≡ e
  pub size : length t.itimer ≡ timer_array_size

-- An update leaves a stopped timer alone.
update_one_stopped : (delta : ℤ) (t : IntervalTimer) → t.interval ≡ pos 0 → update_one delta t ≡ t
unfolding update_one
update_one_stopped delta t h = rw h refl

update-Stopped :
    (i : ℕ) (e : Bool) (t : Timers)
    → i < timer_array_size
    → Stopped i e t
    → Stopped i e (timer_update t)
unfolding timer_update
update-Stopped i e t hi s =
    let delta = int32 (pos t.elapsed) in
    if_rule (Stopped i e) (is_positive delta)
      (λ p.
        let same : get_or (update_all timer_array_size delta t.itimer) i idle_timer ≡ timer_at t i =
          get_or-update_all timer_array_size i delta t.itimer hi (omega (arith, s.size))
          ∙ update_one_stopped delta (timer_at t i) s.interval_is in
        record {
          interval_is = ap (λ v. v.interval) same ∙ s.interval_is;
          latch = ap (λ v. v.expire) same ∙ s.latch;
          size = length-update_all timer_array_size delta t.itimer ∙ s.size;
        })
      (λ p. record { interval_is = s.interval_is; latch = s.latch; size = s.size })

alarms-Stopped : (i : ℕ) (e : Bool) (k : ℕ) (t : Timers) → Stopped i e t → Stopped i e (alarms k t)
unfolding catch_alarm
alarms-Stopped i e zero t s = s
alarms-Stopped i e (suc k) t s =
    alarms-Stopped i e k (catch_alarm t)
      (record { interval_is = s.interval_is; latch = s.latch; size = s.size })

-- The latch is reported, and reset.
read-Stopped :
    (i : ℕ) (e : Bool) (t : Timers)
    → i < timer_array_size
    → Stopped i e t
    → ((read_expire i t).0 ≡ e) × Stopped i false (read_expire i t).1
unfolding read_expire
read-Stopped i e t hi s =
    let cleared : IntervalTimer = record (timer_at t i) { expire = false } in
    let self = get_or-set_self t.itimer i cleared idle_timer (omega (arith, s.size)) in
    if_rule (λ (r : Bool × Timers). (r.0 ≡ e) × Stopped i false r.1) (leb timer_array_size i)
      (λ p. absurd (ground arith))
      (λ p.
        if_rule (λ (r : Bool × Timers). (r.0 ≡ e) × Stopped i false r.1) (timer_at t i).expire
          (λ q. (
            sym q ∙ s.latch,
            record {
              interval_is = ap (λ v. v.interval) self ∙ s.interval_is;
              latch = ap (λ v. v.expire) self;
              size = length-set t.itimer i cleared ∙ s.size;
            },
          ))
          (λ q.
            (sym q ∙ s.latch, record { interval_is = s.interval_is; latch = q; size = s.size })))

poll-Stopped :
    (i : ℕ) (e : Bool) (k : ℕ) (t : Timers)
    → i < timer_array_size
    → Stopped i e t
    → ((poll i k t).0 ≡ e) × Stopped i false (poll i k t).1
unfolding timer_expired
poll-Stopped i e k t hi s =
    read-Stopped i e (timer_update (alarms k t)) hi
      (update-Stopped i e (alarms k t) hi (alarms-Stopped i e k t s))

quiet-Stopped :
    (i : ℕ) (ks : List ℕ) (t : Timers)
    → i < timer_array_size
    → Stopped i false t
    → all_quiet i ks t ≡ true
quiet-Stopped i [] t hi s = refl
quiet-Stopped i (k ∷ ks) t hi s =
    let r = poll-Stopped i false k t hi s in rw r.0 (quiet-Stopped i ks (poll i k t).1 hi r.1)

stop-Stopped :
    (i : ℕ) (t : Timers)
    → i < timer_array_size
    → length t.itimer ≡ timer_array_size
    → Stopped i (timer_at t i).expire (timer_stop i t)
unfolding timer_stop
stop-Stopped i t hi size =
    let stopped : IntervalTimer = record (timer_at t i) { interval = pos 0 } in
    let self = get_or-set_self t.itimer i stopped idle_timer (omega (arith, size)) in
    if_rule (Stopped i (timer_at t i).expire) (leb timer_array_size i) (λ p. absurd (ground arith))
      (λ p. record {
        interval_is = ap (λ v. v.interval) self;
        latch = ap (λ v. v.expire) self;
        size = length-set t.itimer i stopped ∙ size;
      })

-- A timer of the array that is stopped reports at the next question the expiry latched before the
-- stop, if there was one, and none at any later question, whatever time goes by.
pub timer_stop-quiet :
    (i : ℕ) (t : Timers) (k : ℕ) (ks : List ℕ)
    → i < timer_array_size
    → length t.itimer ≡ timer_array_size
    → ((poll i k (timer_stop i t)).0 ≡ (timer_at t i).expire)
      × (all_quiet i ks (poll i k (timer_stop i t)).1 ≡ true)
timer_stop-quiet i t k ks hi size =
    let r = poll-Stopped i (timer_at t i).expire k (timer_stop i t) hi (stop-Stopped i t hi size) in
    (r.0, quiet-Stopped i ks (poll i k (timer_stop i t)).1 hi r.1)
