-- ===== src/Sampling/Bounds.antt =====
-- The array of samples is large enough for the loop.
use net_blast.Base.{
  ℕ, ◌+◌, ◌*◌, ◌^◌, ◌<◌, ◌≤◌, ◌≡◌, ◌⊎◌, inl, inr, refl, ◌∙◌, arith, ltb, leb, lt→ltb, true,
  Bool-cases, List, [], ◌∷◌, length, length-set, set, some, if◌then◌else◌, sub64, u32,
}
use native.Mathlib.Nat.{lt_of_mul-lt-mul_right, add-mul, one-mul}
use net_blast.Sampling.{Sampler, total_samples, print_stats, main_round, main_rounds}

-- The time stamps are read one after the other: they do not fall.
abbrev pub AreRising : ℕ → List (ℕ × ℕ) → Type 0
AreRising prev [] = Unit {0}
AreRising prev (r ∷ readings) = (prev ≤ r.0) × (r.0 < 2 ^ 64) × AreRising r.0 readings

module _ (hz timer_period start : ℕ) (ticks : 0 < hz)
    (period : (timer_period ≡ 0) ⊎ (hz ≤ timer_period))
    (no_wrap : start + total_samples * hz < 2 ^ 64) where
  -- Each sample has taken a second at least, and the time is not over before the loop ends.
  pub record IsSampling (now : ℕ) (t : Sampler) : Type 0 where
    pub room : length t.samples ≡ total_samples
    pub begun : start ≤ t.prev_tsc
    pub past : t.prev_tsc ≤ now
    pub paced : start + t.sample_size * hz ≤ t.prev_tsc
    pub fits : t.sample_size ≤ total_samples
    pub running : (t.force_quit ≡ true) ⊎ (now < start + total_samples * hz)

  abbrev end : ℕ
  end = start + total_samples * hz

  sampled :
      (now cur mpps : ℕ) (t : Sampler)
      → IsSampling now t
      → now ≤ cur
      → cur < 2 ^ 64
      → now < end
      → timer_period ≤ sub64 cur t.prev_tsc
      → (t' : Sampler) × (print_stats timer_period mpps t ≡ some t')
        × (length t'.samples ≡ total_samples)
        × (start + t'.sample_size * hz ≤ cur)
        × (t'.sample_size ≤ total_samples)
        × (t'.force_quit ≡ t.force_quit)
  unfolding print_stats
  sampled now cur mpps t v later small early due =
      let past = v.past in
      let paced = v.paced in
      let room = v.room in
      elim (Bool-cases (ltb 0 timer_period)) [
        | inr p ↦ (t, rw p refl, v.room, omega arith, v.fits, refl)
        | inl p ↦
            let fewer : t.sample_size < total_samples = lt_of_mul-lt-mul_right hz (omega arith) in
            let positive : 0 < timer_period = ground arith in
            let second : hz ≤ timer_period = elim period [
              | inl z ↦ absurd (omega arith)
              | inr l ↦ l
            ] in
            let next : (t.sample_size + 1) * hz ≡ t.sample_size * hz + hz =
              rw (add-mul, one-mul) refl in
            let counted : u32 (t.sample_size + 1) ≡ t.sample_size + 1 = omega arith in
            (
              record t {
                samples = set t.samples t.sample_size mpps;
                sample_size = u32 (t.sample_size + 1);
              },
              rw (p, lt→ltb t.sample_size (length t.samples) (omega arith)) refl,
              length-set t.samples t.sample_size mpps ∙ v.room,
              rw (counted, next) (omega arith),
              omega arith,
              refl,
            )
      ]

  -- the test at the end of a round
  last_test :
      (cur : ℕ) (t : Sampler)
      → length t.samples ≡ total_samples
      → start ≤ t.prev_tsc
      → t.prev_tsc ≤ cur
      → start + t.sample_size * hz ≤ t.prev_tsc
      → t.sample_size ≤ total_samples
      → IsSampling cur (if leb end cur then record t { force_quit = true } else t)
  last_test cur t room begun past paced fits = elim (Bool-cases (leb end cur)) [
    | inl p ↦ rw p (record {
      room = room;
      begun = begun;
      past = past;
      paced = paced;
      fits = fits;
      running = inl refl;
    })
    | inr p ↦
        let before : cur < end = ground arith in
        rw p (record {
          room = room;
          begun = begun;
          past = past;
          paced = paced;
          fits = fits;
          running = inr before;
        })
  ]

  main_round-IsSampling :
      (now cur mpps : ℕ) (t : Sampler)
      → IsSampling now t
      → now ≤ cur
      → cur < 2 ^ 64
      → now < end
      → (t' : Sampler) × (main_round timer_period end cur mpps t ≡ some t') × IsSampling cur t'
  unfolding main_round
  main_round-IsSampling now cur mpps t v later small early =
      let past = v.past in
      let begun = v.begun in
      elim (Bool-cases (leb timer_period (sub64 cur t.prev_tsc))) [
        | inl p ↦
            let due : timer_period ≤ sub64 cur t.prev_tsc = ground arith in
            let (r, e, room, paced, fits, _) = sampled now cur mpps t v later small early due in
            let state =
              last_test cur (record r { prev_tsc = cur }) room (omega arith) (omega arith) paced
                fits in
            (_, rw (p, e) refl, state)
        | inr p ↦
            let state = last_test cur t v.room v.begun (omega arith) v.paced v.fits in
            (_, rw p refl, state)
      ]

  -- From a state in which as many seconds have gone by as samples were taken, on time stamps that do
  -- not fall, with a period of 0 or of at least a second and an end time that does not wrap, the loop
  -- makes no store outside of the array of TOTAL_SAMPLES samples, and counts no more samples than
  -- it has.
  pub main_rounds-IsSampling :
      (readings : List (ℕ × ℕ)) (now : ℕ) (t : Sampler)
      → AreRising now readings
      → IsSampling now t
      → (t' : Sampler) × (main_rounds timer_period end readings t ≡ some t')
        × (length t'.samples ≡ total_samples)
        × (t'.sample_size ≤ total_samples)
  unfolding main_rounds
  main_rounds-IsSampling [] now t h v = (t, refl, v.room, v.fits)
  main_rounds-IsSampling (r ∷ readings) now t h v = elim (Bool-cases t.force_quit) [
    | inl p ↦ (t, rw p refl, v.room, v.fits)
    | inr p ↦
        let early : now < end = elim v.running [ inl q ↦ absurd (cc) | inr l ↦ l ] in
        let (t1, e, v1) = main_round-IsSampling now r.0 r.1 t v h.0 h.1 early in
        let (t2, e2, room, fits) = main_rounds-IsSampling readings r.0 t1 h.2 v1 in
        (t2, rw (e, p) e2, room, fits)
  ]
