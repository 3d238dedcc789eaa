-- ===== src/Timer/Poll.antt =====
-- The answer to one question whether a timer has expired.
use xge_ptpv.Common.{
  subst, ℕ, zero, suc, ◌+◌, ◌-◌, ◌<◌, ◌≤◌, ◌^◌, ◌≡◌, refl, sym, ◌∙◌, ap, Bool, true, false, length,
  get_or, arith,
}
use xge_ptpv.Common.Int.{pos}
use native.Mathlib.Decide.{ℕ_discrete}
use xge_ptpv.Timer.{
  Timers, timer_array_size, idle_timer, timer_at, catch_alarm, update_one, timer_update,
  read_expire, timer_expired,
}
use xge_ptpv.Timer.Update.{
  running, update_one-before, update_one-after, timer_update-elapsed, timer_update_none,
  timer_at-timer_update, length-timer_update,
}

-- `k` ticks of the clock.
abbrev pub alarms : ℕ → Timers → Timers
alarms zero t = t
alarms (suc k) t = alarms k (catch_alarm t)

alarms_lem :
    (k : ℕ) (t : Timers)
    → t.elapsed + k < 2 ^ 31
    → ((alarms k t).elapsed ≡ t.elapsed + k) × ((alarms k t).itimer ≡ t.itimer)
unfolding catch_alarm
alarms_lem zero t h = (omega arith, refl)
alarms_lem (suc k) t h =
    let r = alarms_lem k (catch_alarm t) (omega arith) in (omega (arith, r.0), r.1)

-- `k` ticks, and then a question whether timer `i` has expired.
abbrev pub poll : ℕ → ℕ → Timers → Bool × Timers
poll i k t = timer_expired i (alarms k t)

-- Timer `i` is running, with `l` ticks left of which `e` have gone by.
pub record Waits (i n l e : ℕ) (t : Timers) : Type 0 where
  pub at : timer_at t i ≡ running n l false
  pub size : length t.itimer ≡ timer_array_size
  pub gone : t.elapsed ≡ e

-- An update when `e` ticks have gone by.
update_before :
    (i n l e : ℕ) (t : Timers)
    → i < timer_array_size
    → 0 < n
    → l < 2 ^ 31
    → e < l
    → Waits i n l e t
    → Waits i n (l - e) 0 (timer_update t)
update_before i n l e t hi hn hl he w = elim (ℕ_discrete e 0) [
  | yes z ↦ record {
    at =
        ap (λ ts. get_or ts i idle_timer) (timer_update_none t (w.gone ∙ z))
        ∙ w.at
        ∙ ap (λ k. running n k false) (omega arith);
    size = length-timer_update t (omega (arith, w.gone)) ∙ w.size;
    gone = timer_update-elapsed t;
  }
  | no d ↦ record {
    at =
        timer_at-timer_update i e t hi w.size w.gone (omega arith) (omega arith)
        ∙ ap (update_one (pos e)) w.at
        ∙ update_one-before n l e false hn hl he;
    size = length-timer_update t (omega (arith, w.gone)) ∙ w.size;
    gone = timer_update-elapsed t;
  }
]

update_after :
    (i n l e : ℕ) (t : Timers)
    → i < timer_array_size
    → 0 < n
    → l < 2 ^ 31
    → 0 < e
    → e < 2 ^ 31
    → l ≤ e
    → Waits i n l e t
    → (timer_at (timer_update t) i ≡ running n n true)
      × (length (timer_update t).itimer ≡ timer_array_size)
      × ((timer_update t).elapsed ≡ 0)
update_after i n l e t hi hn hl p he h w = (
  timer_at-timer_update i e t hi w.size w.gone p he
      ∙ ap (update_one (pos e)) w.at
      ∙ update_one-after n l e false hn hl he h,
  length-timer_update t (omega (arith, w.gone)) ∙ w.size,
  timer_update-elapsed t,
)

-- A latch that is not set is not read.
read_quiet : (i : ℕ) (t : Timers) → (timer_at t i).expire ≡ false → read_expire i t ≡ (false, t)
unfolding read_expire
read_quiet i t h = rw (h, read_expire) (ground arith)

read_latched :
    (i : ℕ) (t : Timers)
    → i < timer_array_size
    → (timer_at t i).expire ≡ true
    → (read_expire i t).0 ≡ true
unfolding read_expire
read_latched i t hi h = rw (h, read_expire) (ground arith)

after_alarms :
    (i n l e k : ℕ) (t : Timers)
    → e + k < 2 ^ 31
    → Waits i n l e t
    → Waits i n l (e + k) (alarms k t)
after_alarms i n l e k t h w =
    let r = alarms_lem k t (omega (arith, w.gone)) in
    record {
      at = ap (λ ts. get_or ts i idle_timer) r.1 ∙ w.at;
      size = ap length r.1 ∙ w.size;
      gone = omega (arith, w.gone, r.0);
    }

-- A question that comes too early.
pub poll_before :
    (i n l e k : ℕ) (t : Timers)
    → i < timer_array_size
    → 0 < n
    → l < 2 ^ 31
    → e + k < l
    → Waits i n l e t
    → ((poll i k t).0 ≡ false) × Waits i n (l - (e + k)) 0 (poll i k t).1
unfolding timer_expired
poll_before i n l e k t hi hn hl h w =
    let u =
      update_before i n l (e + k) (alarms k t) hi hn hl h
        (after_alarms i n l e k t (omega arith) w) in
    let q = read_quiet i (timer_update (alarms k t)) (ap (λ v. v.expire) u.at) in
    (ap (λ p. p.0) q, subst (λ v. Waits i n (l - (e + k)) 0 v) (sym (ap (λ p. p.1) q)) u)

-- A question that does not.
pub poll_after :
    (i n l e k : ℕ) (t : Timers)
    → i < timer_array_size
    → 0 < n
    → 0 < l
    → l < 2 ^ 31
    → e + k < 2 ^ 31
    → l ≤ e + k
    → Waits i n l e t
    → (poll i k t).0 ≡ true
unfolding timer_expired
poll_after i n l e k t hi hn p hl b h w =
    let u =
      update_after i n l (e + k) (alarms k t) hi hn hl (omega arith) b h
        (after_alarms i n l e k t b w) in
    read_latched i (timer_update (alarms k t)) hi (ap (λ v. v.expire) u.0)
