-- ===== src/Port/Runs.antt =====
-- Runs of a port: rounds of the main loop, with ticks of the interval timer between.
use xge_ptpv.Common.{ℕ, ◌%◌, ◌≢◌, Bool}
use xge_ptpv.Common.Int.{ℤ}
use xge_ptpv.Datatypes.{MsgHeader}
use xge_ptpv.Timer.{catch_alarm}
use xge_ptpv.Protocol.Reach.{ticks-RightTimers}
use xge_ptpv.Port.{Outside, Port, on_engine}
use xge_ptpv.Port.Loop.{round}
use xge_ptpv.Port.Safety.{IsSafe, round-IsSafe}

abbrev pub ticked : Port → Port
ticked p = on_engine (λ e. record e { timers = catch_alarm e.timers }) p

-- What the port may come to from `p₀`.
pub data Runs (o : Outside) (manage : MsgHeader → ℤ → Bool → Port → Port) (p₀ : Port)
    : Port → Type 0 where
  starts : Runs o manage p₀ p₀
  rounds :
      (is_connected : Bool) (p : Port)
      → Runs o manage p₀ p
      → Runs o manage p₀ (round o manage is_connected p)
  ticks : (p : Port) → Runs o manage p₀ p → Runs o manage p₀ (ticked p)

ticked-IsSafe : (p : Port) → IsSafe p → IsSafe (ticked p)
ticked-IsSafe p s = record {
  sound = record {
    timers = ticks-RightTimers p.engine.clock.port_state p.engine.timers s.sound.timers;
    calibrated = s.sound.calibrated;
  };
  obeys = s.obeys;
}

module _ (o : Outside) (manage : MsgHeader → ℤ → Bool → Port → Port)
    (no_management : (n : ℕ) → (o.net_recv n).octets 0 % 16 ≢ 13) where
  -- However long a port runs, whatever comes in and whatever the hardware answers, if none of what
  -- comes in has the type of a management message: between the rounds the timers of Sync and
  -- Announce run in no state but the master's, the wait for announces in none but listening, passive
  -- and slave, and a clock for slaves only is no master, if this was so at the start and the state
  -- was not the uncalibrated one, which is never entered. Nothing is asked of the handler of
  -- management messages, which is never called.
  pub Runs-IsSafe : (p₀ p : Port) → IsSafe p₀ → Runs o manage p₀ p → IsSafe p
  Runs-IsSafe p₀ p s starts = s
  Runs-IsSafe p₀ _ s (rounds is_connected p r) =
      round-IsSafe o manage no_management is_connected p (Runs-IsSafe p₀ p s r).sound
  Runs-IsSafe p₀ _ s (ticks p r) = ticked-IsSafe p (Runs-IsSafe p₀ p s r)
