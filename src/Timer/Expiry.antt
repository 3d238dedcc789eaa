-- ===== src/Timer/Expiry.antt =====
-- When a timer expires.
use xge_ptpv.Common.{
  ℕ, ◌+◌, ◌-◌, ◌<◌, ◌≤◌, ◌^◌, ◌≡◌, ◌≢◌, refl, sym, ◌∙◌, ◌⊎◌, inl, inr, ◌↔◌, Bool, true, false, not,
  ◌&&◌, List, [], ◌∷◌, length, length-set, get_or-set_self, if_rule, leb, arith,
}
use xge_ptpv.Datatypes.{IntervalTimer}
use xge_ptpv.Timer.{Timers, Interval, timer_array_size, idle_timer, timer_start, ticks}
use xge_ptpv.Timer.Update.{running}
use xge_ptpv.Timer.Poll.{poll, Waits, poll_before, poll_after}

≤-cases : (a b : ℕ) → (a ≤ b) ⊎ (b < a)
≤-cases a b = omega arith

-- Questions, with the ticks between them: whether all are answered no.
abbrev pub all_quiet : ℕ → List ℕ → Timers → Bool
all_quiet i [] t = true
all_quiet i (k ∷ ks) t = not (poll i k t).0 && all_quiet i ks (poll i k t).1

-- The timers after the questions.
abbrev pub after_polls : ℕ → List ℕ → Timers → Timers
after_polls i [] t = t
after_polls i (k ∷ ks) t = after_polls i ks (poll i k t).1

abbrev pub sum : List ℕ → ℕ
sum [] = 0
sum (k ∷ ks) = k + sum ks

wait_out :
    (i n l e : ℕ) (ks : List ℕ) (t : Timers)
    → i < timer_array_size
    → 0 < n
    → l < 2 ^ 31
    → e + sum ks < l
    → Waits i n l e t
    → (all_quiet i ks t ≡ true)
      × ((d : ℕ)
          → 0 < d
          → e + sum ks + d ≡ l
          → (l' : ℕ) × (e' : ℕ) × (e' + d ≡ l') × (l' ≤ l) × Waits i n l' e' (after_polls i ks t))
wait_out i n l e [] t hi hn hl h w = (refl, λ d p q. (l, e, omega arith, omega arith, w))
wait_out i n l e (k ∷ ks) t hi hn hl h w =
    let b = poll_before i n l e k t hi hn hl (omega arith) w in
    let r = wait_out i n (l - (e + k)) 0 ks (poll i k t).1 hi hn (omega arith) (omega arith) b.1 in
    (rw b.0 r.0, λ d p q. let v = r.1 d p (omega arith) in (v.0, v.1, v.2, omega (arith, v.3), v.4))

timer_start-Waits :
    (i : ℕ) (s : Interval) (t : Timers)
    → i < timer_array_size
    → length t.itimer ≡ timer_array_size
    → Waits i (ticks s) (ticks s) t.elapsed (timer_start i s t)
unfolding timer_start
timer_start-Waits i s t hi size =
    let v : IntervalTimer = running (ticks s) (ticks s) false in
    if_rule (Waits i (ticks s) (ticks s) t.elapsed) (leb timer_array_size i)
      (λ e. absurd (ground arith))
      (λ e. record {
        at = get_or-set_self t.itimer i v idle_timer (omega arith);
        size = length-set t.itimer i v ∙ size;
        gone = refl;
      })

true≢false : true ≢ false
true≢false e = cc

-- The answer to a question when `l - e` ticks are still to go.
answer :
    (i n l e k : ℕ) (t : Timers)
    → i < timer_array_size
    → 0 < n
    → 0 < l
    → l < 2 ^ 31
    → e + k < 2 ^ 31
    → Waits i n l e t
    → ((poll i k t).0 ≡ true) ↔ (l ≤ e + k)
answer i n l e k t hi hn p hl b w = (
  λ y. elim (≤-cases l (e + k)) [
    | inl h ↦ h
    | inr h ↦ absurd (true≢false (sym y ∙ (poll_before i n l e k t hi hn hl h w).0))
  ],
  λ h. poll_after i n l e k t hi hn p hl b h w,
)

-- A timer that is started answers no to the questions that come before its interval has gone by,
-- counted from the last update, and yes to the next question just when the interval has gone by
-- then. The timer is one of the array's, the array has its size, and the interval and the time that
-- goes by are of fewer than 2^31 ticks.
pub timer_start-expires :
    (i : ℕ) (s : Interval) (t : Timers) (ks : List ℕ) (k : ℕ)
    → i < timer_array_size
    → length t.itimer ≡ timer_array_size
    → ticks s < 2 ^ 31
    → t.elapsed + sum ks < ticks s
    → t.elapsed + sum ks + k < 2 ^ 31
    → (all_quiet i ks (timer_start i s t) ≡ true)
      × (((poll i k (after_polls i ks (timer_start i s t))).0 ≡ true)
          ↔ (ticks s ≤ t.elapsed + sum ks + k))
timer_start-expires i s t ks k hi size hs h b =
    let r =
      wait_out i (ticks s) (ticks s) t.elapsed ks (timer_start i s t) hi (omega arith) hs h
        (timer_start-Waits i s t hi size) in
    let v = r.1 (ticks s - (t.elapsed + sum ks)) (omega arith) (omega arith) in
    let a =
      answer i (ticks s) v.0 v.1 k (after_polls i ks (timer_start i s t)) hi (omega arith)
        (omega (arith, v.2)) (omega (arith, v.3)) (omega (arith, v.2, v.3)) v.4 in
    (r.0, (λ y. omega (arith, a.0 y, v.2), λ y. a.1 (omega (arith, v.2))))
