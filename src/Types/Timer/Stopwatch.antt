-- ===== src/Types/Timer/Stopwatch.antt =====
-- `CacheTimer` against a stopwatch over unbounded time.
use ppi_chi_nettest.Base.{ℕ, ◌+◌, ◌-◌, ◌%◌, ◌<◌, ◌≤◌, ◌≡◌, List, [], ◌∷◌, arith, u64_mod}
use ppi_chi_nettest.Types.Timer.{
  CacheTimer, new_timer, Call, wrap_to, refresh_to, tick_by, resume_it, pause_it, reset_it, step,
  run, get_nsec, get_nsec_from_start, get_nsec_since,
}

-- The time now, the time since the last resume, pause or reset, and the time that pauses added.
pub record Stopwatch : Type 0 where
  pub now : ℕ
  pub lap : ℕ
  pub net : ℕ

abbrev pub watch_step : Call → Stopwatch → Stopwatch
watch_step (wrap_to r) w = record w { now = r; lap = w.lap + (r - w.now) }
watch_step (refresh_to r) w = record w { now = r; lap = w.lap + (r - w.now) }
watch_step (tick_by n) w = record w { now = w.now + n; lap = w.lap + n }
watch_step resume_it w = record w { lap = 0 }
watch_step pause_it w = record w { lap = 0; net = w.net + w.lap }
watch_step reset_it w = record w { lap = 0; net = 0 }

abbrev pub watch_run : List Call → Stopwatch → Stopwatch
watch_run [] w = w
watch_run (c ∷ cs) w = watch_run cs (watch_step c w)

abbrev pub new_watch : Stopwatch
new_watch = record { now = 0; lap = 0; net = 0 }

-- No reading lies before the time that was reached.
abbrev pub IsForward : Call → Stopwatch → Type 0
IsForward (wrap_to r) w = w.now ≤ r
IsForward (refresh_to r) w = w.now ≤ r
IsForward (tick_by n) w = Unit
IsForward resume_it w = Unit
IsForward pause_it w = Unit
IsForward reset_it w = Unit

abbrev pub AreForward : List Call → Stopwatch → Type 0
AreForward [] w = Unit
AreForward (c ∷ cs) w = IsForward c w × AreForward cs (watch_step c w)

pub record Shows (t : CacheTimer) (w : Stopwatch) : Type 0 where
  pub cur : t.cur_ns ≡ w.now % u64_mod
  pub start : t.start_ns < u64_mod
  pub lap : (t.start_ns + w.lap) % u64_mod ≡ t.cur_ns
  pub net : t.net_ns ≡ w.net % u64_mod

-- Every method keeps the timer in step with the stopwatch, wrap-around included.
pub step-Shows :
    (c : Call) {t : CacheTimer} {w : Stopwatch}
    → Shows t w
    → IsForward c w
    → Shows (step c t) (watch_step c w)
unfolding step
step-Shows (wrap_to r) s h = omega arith
step-Shows (refresh_to r) s h = omega arith
step-Shows (tick_by n) s h = omega arith
step-Shows resume_it s h = omega arith
step-Shows pause_it s h = omega arith
step-Shows reset_it s h = omega arith

run-Shows :
    (cs : List Call) {t : CacheTimer} {w : Stopwatch}
    → Shows t w
    → AreForward cs w
    → Shows (run cs t) (watch_run cs w)
unfolding run
run-Shows [] s h = s
run-Shows (c ∷ cs) s h = run-Shows cs (step-Shows c s h.0) h.1

-- After any calls whose readings do not go back, a new timer reports the stopwatch's net time and
-- its current lap, each modulo 2^64; the time since a given point is cut off at 0.
pub run-Stopwatch :
    (cs : List Call) (point : ℕ)
    → AreForward cs new_watch
    → let t = run cs new_timer in
      let w = watch_run cs new_watch in
      (get_nsec t ≡ w.net % u64_mod)
      × (get_nsec_from_start t ≡ w.lap % u64_mod)
      × (get_nsec_since t point ≡ w.now % u64_mod - point)
unfolding get_nsec get_nsec_from_start get_nsec_since
run-Stopwatch cs point h =
    let s : Shows (run cs new_timer) (watch_run cs new_watch) = run-Shows cs (omega arith) h in
    (s.net, omega (arith, s.cur, s.start, s.lap), ground (arith, s.cur))
