-- ===== src/Types/Timer.antt =====
-- `class CacheTimer` of include/test_networks/chimaera_types.h (lines 806 to 844). The member
-- `timer_` is the library's clock: a reading of it is an argument of `refresh`.
pub mod Stopwatch
use ppi_chi_nettest.Base.{ℕ, ◌+◌, ◌-◌, ◌%◌, ltb, if◌then◌else◌, List, [], ◌∷◌, u64_mod}

-- Three `size_t`.
pub record CacheTimer : Type 0 where
  pub cur_ns : ℕ
  pub start_ns : ℕ
  pub net_ns : ℕ

-- The default member initializers.
abbrev pub new_timer : CacheTimer
new_timer = record { cur_ns = 0; start_ns = 0; net_ns = 0 }

-- `size_t` subtraction.
abbrev pub sub64 : ℕ → ℕ → ℕ
sub64 a b = (a + u64_mod - b) % u64_mod

wrap : CacheTimer → CacheTimer → CacheTimer
wrap other t = record t { cur_ns = other.cur_ns }

refresh : ℕ → CacheTimer → CacheTimer
refresh reading t = record t { cur_ns = reading }

tick : ℕ → CacheTimer → CacheTimer
tick nanosec t = record t { cur_ns = (t.cur_ns + nanosec) % u64_mod }

pub get_nsec_from_start : CacheTimer → ℕ
get_nsec_from_start t = sub64 t.cur_ns t.start_ns

pub get_nsec_since : CacheTimer → ℕ → ℕ
get_nsec_since t start = if ltb start t.cur_ns then sub64 t.cur_ns start else 0

pub get_nsec : CacheTimer → ℕ
get_nsec t = t.net_ns

resume : CacheTimer → CacheTimer
resume t = record t { start_ns = t.cur_ns }

pause : CacheTimer → CacheTimer
pause t = record t {
  net_ns = (t.net_ns + sub64 t.cur_ns t.start_ns) % u64_mod;
  start_ns = t.cur_ns;
}

reset : CacheTimer → CacheTimer
reset t = record t { start_ns = t.cur_ns; net_ns = 0 }

-- A call of one of the methods. A reading of the clock, and the time that is taken over from
-- another timer, are given as time since the start before they are cut to a `size_t`.
pub data Call : Type 0 where
  wrap_to refresh_to tick_by : ℕ → Call
  resume_it pause_it reset_it : Call

pub step : Call → CacheTimer → CacheTimer
unfolding wrap refresh tick resume pause reset
step (wrap_to now) t = wrap (record new_timer { cur_ns = now % u64_mod }) t
step (refresh_to now) t = refresh (now % u64_mod) t
step (tick_by n) t = tick n t
step resume_it t = resume t
step pause_it t = pause t
step reset_it t = reset t

pub run : List Call → CacheTimer → CacheTimer
unfolding step
run [] t = t
run (c ∷ cs) t = run cs (step c t)
