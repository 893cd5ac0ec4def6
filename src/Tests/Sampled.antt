-- ===== src/Tests/Sampled.antt =====
-- The loop of the main core, and the extremes of its samples.
use net_blast.Base.{
  ℕ, ◌≡◌, ◌≤◌, inr, arith, List, [], ◌∷◌, length, length-replicate, replicate, some, false,
}
use net_blast.Sampling.{Sampler, main_rounds, print_final_stats}
use net_blast.Sampling.Bounds.{IsSampling, main_rounds-IsSampling}
use net_blast.Sampling.Extremes.{AreExtremes, print_final_stats-AreExtremes}

abbrev started : Sampler
started = record { prev_tsc = 100; samples = replicate 32 0; sample_size = 0; force_quit = false }

abbrev readings : List (ℕ × ℕ)
readings = (105, 0) ∷ (111, 7) ∷ (125, 9) ∷ (500, 4) ∷ []

main_rounds-IsSampling_example :
    (t' : Sampler) × (main_rounds 10 420 readings started ≡ some t')
    × (length t'.samples ≡ 32)
    × (t'.sample_size ≤ 32)
main_rounds-IsSampling_example =
    main_rounds-IsSampling 10 10 100 (omega arith) (inr (omega arith)) (omega arith) readings 100
      started (omega arith) begin
  where
    begin : IsSampling 10 10 100 (omega arith) (inr (omega arith)) (omega arith) 100 started
    begin = record {
      room = length-replicate 32 0;
      begun = omega arith;
      past = omega arith;
      paced = omega arith;
      fits = omega arith;
      running = inr (omega arith);
    }

print_final_stats-AreExtremes_example :
    (min max : ℕ) × (print_final_stats (5 ∷ 3 ∷ 8 ∷ []) ≡ some (min, max))
    × AreExtremes (5 ∷ 3 ∷ 8 ∷ []) min max
print_final_stats-AreExtremes_example = print_final_stats-AreExtremes 5 (3 ∷ 8 ∷ [])
