-- ===== src/Timer/Update.antt =====
-- What an update does to one timer.
use xge_ptpv.Common.{
  ℕ, zero, suc, ◌-◌, ◌<◌, ◌≤◌, ◌^◌, ◌≡◌, refl, ◌∙◌, ap, Bool, true, false, List, [], ◌∷◌, length,
  get_or, arith,
}
use xge_ptpv.Common.Int.{ℤ, pos, ◌-ℤ◌, int32, int32_fits}
use native.Mathlib.Decide.{ℕ_discrete}
use xge_ptpv.Datatypes.{IntervalTimer}
use xge_ptpv.Timer.{
  Timers, timer_array_size, idle_timer, timer_at, is_positive, update_one, update_all, timer_update,
}

pub length-update_all :
    (n : ℕ) (delta : ℤ) (ts : List IntervalTimer) → length (update_all n delta ts) ≡ length ts
unfolding update_all
length-update_all zero delta ts = refl
length-update_all (suc n) delta [] = refl
length-update_all (suc n) delta (t ∷ ts) = ap suc (length-update_all n delta ts)

pub get_or-update_all :
    (n i : ℕ) (delta : ℤ) (ts : List IntervalTimer)
    → i < n
    → i < length ts
    → get_or (update_all n delta ts) i idle_timer ≡ update_one delta (get_or ts i idle_timer)
unfolding update_all
get_or-update_all zero i delta ts h l = absurd (omega arith)
get_or-update_all (suc n) i delta [] h l = absurd (omega arith)
get_or-update_all (suc n) zero delta (t ∷ ts) h l = refl
get_or-update_all (suc n) (suc i) delta (t ∷ ts) h l =
    get_or-update_all n i delta ts (omega arith) (omega arith)

-- A running timer with `n` ticks to wait in all and `l` ticks left, or a stopped one, and whether
-- its expiry is latched.
abbrev pub running : ℕ → ℕ → Bool → IntervalTimer
running n l e = record { interval = pos n; left = pos l; expire = e }

left_before : (l k : ℕ) → l < 2 ^ 31 → k < l → int32 (pos l -ℤ pos k) ≡ pos (l - k)
unfolding ◌-ℤ◌
left_before l k b h = ground (arith, int32_fits (pos (l - k)))

left_after :
    (l k : ℕ) → l < 2 ^ 31 → k < 2 ^ 31 → l ≤ k → is_positive (int32 (pos l -ℤ pos k)) ≡ false
unfolding ◌-ℤ◌
left_after l k b b' h = ground (arith, int32_fits (pos l -ℤ pos k))

pub update_one-before :
    (n l k : ℕ) (e : Bool)
    → 0 < n
    → l < 2 ^ 31
    → k < l
    → update_one (pos k) (running n l e) ≡ running n (l - k) e
unfolding update_one
update_one-before n l k e p b h = ground (arith, left_before l k b h)

pub update_one-after :
    (n l k : ℕ) (e : Bool)
    → 0 < n
    → l < 2 ^ 31
    → k < 2 ^ 31
    → l ≤ k
    → update_one (pos k) (running n l e) ≡ running n n true
unfolding update_one
update_one-after n l k e p b b' h = ground (arith, left_after l k b b' h)

pub timer_update-elapsed : (t : Timers) → (timer_update t).elapsed ≡ 0
unfolding timer_update
timer_update-elapsed t = ground arith

pub timer_update_none : (t : Timers) → t.elapsed ≡ 0 → (timer_update t).itimer ≡ t.itimer
unfolding timer_update
timer_update_none t h = ground (arith, int32_fits (pos t.elapsed))

pub timer_update_some :
    (t : Timers)
    → 0 < t.elapsed
    → t.elapsed < 2 ^ 31
    → (timer_update t).itimer ≡ update_all timer_array_size (pos t.elapsed) t.itimer
unfolding timer_update
timer_update_some t p h = ground (arith, int32_fits (pos t.elapsed))

-- What becomes of timer `i`.
pub timer_at-timer_update :
    (i e : ℕ) (t : Timers)
    → i < timer_array_size
    → length t.itimer ≡ timer_array_size
    → t.elapsed ≡ e
    → 0 < e
    → e < 2 ^ 31
    → timer_at (timer_update t) i ≡ update_one (pos e) (timer_at t i)
timer_at-timer_update i e t hi size gone p h =
    ap (λ ts. get_or ts i idle_timer) (timer_update_some t (omega arith) (omega arith))
    ∙ get_or-update_all timer_array_size i (pos t.elapsed) t.itimer hi (omega arith)
    ∙ ap (λ k. update_one (pos k) (timer_at t i)) gone

pub length-timer_update :
    (t : Timers) → t.elapsed < 2 ^ 31 → length (timer_update t).itimer ≡ length t.itimer
length-timer_update t h = elim (ℕ_discrete t.elapsed 0) [
  | yes e ↦ ap (length) (timer_update_none t e)
  | no d ↦
      ap (length) (timer_update_some t (omega arith) h)
      ∙ length-update_all timer_array_size (pos t.elapsed) t.itimer
]
