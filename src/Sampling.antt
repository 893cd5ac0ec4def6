-- ===== src/Sampling.antt =====
-- l2fwd/main.c: the loop of the main core, which takes a sample of the throughput in every period, and
-- the extremes that `print_final_stats` prints. The throughput of a period is a floating-point number,
-- which is stored as an integer: that integer is an input here.
pub mod Bounds
pub mod Extremes
use net_blast.Base.{
  ℕ, ◌+◌, ◌==◌, ltb, leb, Bool, true, List, [], ◌∷◌, length, set, ◌>>=◌, Option, none, some,
  if◌then◌else◌, u32, sub64,
}

-- TOTAL_SAMPLES
abbrev pub total_samples : ℕ
total_samples = 32

-- What the loop keeps: `samples` is the array that `malloc` returned.
pub record Sampler : Type 0 where
  pub prev_tsc : ℕ
  pub samples : List ℕ
  pub sample_size : ℕ
  pub force_quit : Bool

-- The part of `print_stats` that stores a sample; `none` is a store out of range.
unfoldable pub print_stats : ℕ → ℕ → Sampler → Option Sampler
print_stats timer_period mpps t =
    if ltb 0 timer_period
    then (if ltb t.sample_size (length t.samples)
        then some (record t {
          samples = set t.samples t.sample_size mpps;
          sample_size = u32 (t.sample_size + 1);
        })
        else none)
    else some t

-- One round of the loop, which reads `cur_tsc`.
unfoldable pub main_round : ℕ → ℕ → ℕ → ℕ → Sampler → Option Sampler
main_round timer_period end_tsc cur_tsc mpps t =
    (if leb timer_period (sub64 cur_tsc t.prev_tsc)
      then (print_stats timer_period mpps t >>= λ r. some (record r { prev_tsc = cur_tsc }))
      else some t)
    >>= λ r. some (if leb end_tsc cur_tsc then record r { force_quit = true } else r)

-- The loop, on what its rounds read; it ends before if `force_quit` is set.
unfoldable pub main_rounds : ℕ → ℕ → List (ℕ × ℕ) → Sampler → Option Sampler
main_rounds timer_period end_tsc [] t = some t
main_rounds timer_period end_tsc (reading ∷ readings) t =
    if t.force_quit
    then some t
    else main_round timer_period end_tsc reading.0 reading.1 t >>= λ r.
        main_rounds timer_period end_tsc readings r

-- the loop of `print_final_stats` over the samples, with the extremes so far
unfoldable pub extremes : List ℕ → ℕ → ℕ → ℕ × ℕ
extremes [] min max = (min, max)
extremes (sample ∷ samples) min max =
    extremes samples (if ltb sample min then sample else min)
      (if ltb max sample then sample else max)

-- The minimum and the maximum; `none` is "No samples to process." The average, a floating-point
-- number, is left out.
unfoldable pub print_final_stats : List ℕ → Option (ℕ × ℕ)
print_final_stats [] = none
print_final_stats (first ∷ samples) = some (extremes (first ∷ samples) first first)
