-- ===== src/Pktgen/Rates/Telescope.antt =====
-- The totals of the seconds add up to the counters.
use native.Mathlib.Decide.{ℕ_discrete}
use net_blast.Base.{
  ap, ◌==◌, eq→==, ne→==, if◌then◌else◌, ℕ, zero, suc, ◌+◌, ◌^◌, ◌<◌, ◌≡◌, refl, ◌∙◌, sym, subst,
  arith, List, [], ◌∷◌, length, length-set, get_elem?, get_or, get_or-set_self, get_or-set_ne, set,
  Option, none, some, some_inj, All, u64,
}
use net_blast.Pktgen.Rates.{add_delta, accumulate, seconds}

-- One of the counters: how it is read, and that the loops treat it as `tot += (c - prev)`.
pub record Counter (A : Type 0) (add : A → A → A → A) : Type 0 where
  pub read : A → ℕ
  pub adds : (tot c prev : A) → read (add tot c prev) ≡ add_delta (read tot) (read c) (read prev)

module _ {A : Type 0} {add : A → A → A → A} (counter : Counter A add) where
  -- the sum of a counter over an array
  abbrev pub sum : List A → ℕ
  sum [] = 0
  sum (x ∷ xs) = counter.read x + sum xs

  -- The counters are words.
  abbrev pub AreWords : List A → Type 0
  AreWords = All (λ x. counter.read x < 2 ^ 64)

  -- Every reading is a word, at an index that the array has.
  abbrev pub IsReading : ℕ → ℕ × Option A → Type 0
  IsReading len (i, none) = Unit {0}
  IsReading len (i, some c) = (i < len) × (counter.read c < 2 ^ 64)

  -- An entry is replaced.
  sum-set :
      (prev : List A) (i : ℕ) (c : A)
      → i < length prev
      → (p : A) × (get_elem? prev i ≡ some p)
        × (sum (set prev i c) + counter.read p ≡ sum prev + counter.read c)
        × (AreWords prev → counter.read p < 2 ^ 64)
        × (AreWords prev → counter.read c < 2 ^ 64 → AreWords (set prev i c))
  sum-set [] i c h = absurd (omega arith)
  sum-set (x ∷ xs) zero c h = (x, refl, omega arith, λ w. w.0, λ w k. (k, w.1))
  sum-set (x ∷ xs) (suc i) c h =
      let (p, e, total, word, words) = sum-set xs i c (omega arith) in
      (p, e, omega (arith, total), λ w. word w.1, λ w k. (w.0, words w.1 k))

  -- In one second the totals grow by as much as the sum of the array.
  accumulate-sum :
      (readings : List (ℕ × Option A)) (tot : A) (prev : List A)
      → AreWords prev
      → All (IsReading (length prev)) readings
      → (tot' : A) × (prev' : List A) × (accumulate add readings tot prev ≡ some (tot', prev'))
        × (length prev' ≡ length prev)
        × AreWords prev'
        × (u64 (counter.read tot' + sum prev) ≡ u64 (counter.read tot + sum prev'))
  unfolding accumulate
  accumulate-sum [] tot prev words h = (tot, prev, refl, refl, words, refl)
  accumulate-sum ((i, none) ∷ readings) tot prev words h =
      accumulate-sum readings tot prev words h.1
  accumulate-sum ((i, some c) ∷ readings) tot prev words h =
      let len = length-set prev i c in
      let (p, e, moved, word, kept) = sum-set prev i c h.0.0 in
      let (tot', prev', e', len', words', grows) =
        accumulate-sum readings (add tot c p) (set prev i c) (kept words h.0.1)
          (subst (λ n. All (IsReading n) readings) (sym len) h.1) in
      let w = word words in
      (
        tot',
        prev',
        rw e e',
        len' ∙ len,
        words',
        omega (arith, grows, moved, counter.adds tot c p, h.0.1),
      )

  -- The last reading at the index `i`, or `x` if there is none.
  abbrev pub last_of : ℕ → List (ℕ × Option A) → A → A
  last_of i [] x = x
  last_of i ((j, none) ∷ readings) x = last_of i readings x
  last_of i ((j, some c) ∷ readings) x = last_of i readings (if j == i then c else x)

  -- The same over many seconds.
  abbrev pub last_of_all : ℕ → List (List (ℕ × Option A)) → A → A
  last_of_all i [] x = x
  last_of_all i (second ∷ rest) x = last_of_all i rest (last_of i second x)

  get_or-set :
      (prev : List A) (i j : ℕ) (c d : A)
      → j < length prev
      → get_or (set prev j c) i d ≡ (if j == i then c else get_or prev i d)
  get_or-set prev i j c d inside = elim (ℕ_discrete j i) [
    | yes same ↦
        rw (eq→== j i same)
          (ap (λ n. get_or (set prev j c) n d) (sym same) ∙ get_or-set_self prev j c d inside)
    | no other ↦ rw (ne→== j i other) (get_or-set_ne prev j i c d other)
  ]

  -- What stands in the array after a second.
  accumulate-last_of :
      (readings : List (ℕ × Option A)) (tot : A) (prev : List A) {r : A × List A} (i : ℕ) (d : A)
      → All (IsReading (length prev)) readings
      → accumulate add readings tot prev ≡ some r
      → get_or r.1 i d ≡ last_of i readings (get_or prev i d)
  unfolding accumulate
  accumulate-last_of [] tot prev i d h e =
      ap (λ (x : A × List A). get_or x.1 i d) (sym (some_inj e))
  accumulate-last_of ((j, none) ∷ readings) tot prev i d h e =
      accumulate-last_of readings tot prev i d h.1 e
  accumulate-last_of ((j, some c) ∷ readings) tot prev i d h e =
      let (p, there, _, _, _) = sum-set prev j c h.0.0 in
      accumulate-last_of readings (add tot c p) (set prev j c) i d
        (subst (λ n. All (IsReading n) readings) (sym (length-set prev j c)) h.1) (rw there at e)
      ∙ ap (last_of i readings) (get_or-set prev i j c d h.0.0)

  -- From an array of words on, over any seconds whose readings are words at indices that the array
  -- has, the totals that are shown for a counter add up to the growth of the sum of the array, up to
  -- the wrap-around at 64 bits, and there is no index out of range. Afterwards the array has the length
  -- it had, and at each index stands the last reading there, or what stood there if there was none. It
  -- holds of every counter that starts a second at 0.
  pub seconds-sum :
      {start : A} (all : List (List (ℕ × Option A))) (prev : List A)
      → counter.read start ≡ 0
      → AreWords prev
      → All (All (IsReading (length prev))) all
      → (totals : List A) × (prev' : List A) × (seconds add start all prev ≡ some (totals, prev'))
        × (u64 (sum totals + sum prev) ≡ u64 (sum prev'))
        × (length prev' ≡ length prev)
        × ((d : A) (i : ℕ) → get_or prev' i d ≡ last_of_all i all (get_or prev i d))
  unfolding seconds
  seconds-sum [] prev none_yet words h = ([], prev, refl, omega arith, refl, λ d i. refl)
  seconds-sum {start} (readings ∷ rest) prev none_yet words h =
      let (tot, prev1, e, len, words1, grows) = accumulate-sum readings start prev words h.0 in
      let (totals, prev', e', more, same, kept) =
        seconds-sum rest prev1 none_yet words1
          (subst (λ n. All (All (IsReading n)) rest) (sym len) h.1) in
      (
        tot ∷ totals,
        prev',
        rw (e, e') refl,
        omega (arith, grows, more, none_yet),
        same ∙ len,
        λ d i.
            kept d i ∙ ap (last_of_all i rest) (accumulate-last_of readings start prev i d h.0 e),
      )
