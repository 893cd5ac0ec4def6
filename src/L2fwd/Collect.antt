-- ===== src/L2fwd/Collect.antt =====
-- The arguments that the mode `dramblast` makes of a burst are a batch as the lookup wants it.
use native.Mathlib.Decide.{ℕ_discrete}
use net_blast.Base.{
  All, ℕ, ◌+◌, ◌≤◌, ◌≡◌, ◌≢◌, ◌∙◌, refl, ap, subst, sym, arith, lt→ltb, List, [], ◌∷◌, ◌++◌, length,
  length-append, get_elem?, some, ◌>>=◌,
}
use mathlib.Core.List.{append_assoc}
use net_blast.PacketTool.{flowhash}
use net_blast.PacketTool.Flow.{flowhash-lt}
use net_blast.Maglev.Affinity.{AreFrames}
use net_blast.Dramblast.{Arg}
use net_blast.Dramblast.Frames.Answers.{AreNumbered}
use net_blast.L2fwd.{collect_args}

-- The ids count up from `n`.
abbrev pub AreCounted : ℕ → List Arg → Type 0
AreCounted n [] = Unit {0}
AreCounted n (arg ∷ args) = (arg.id ≡ n) × AreCounted (n + 1) args

get_elem?-behind :
    (before : List Arg) (arg : Arg) (rest : List Arg)
    → get_elem? (before ++ (arg ∷ rest)) (length before) ≡ some arg
get_elem?-behind [] arg rest = refl
get_elem?-behind (x ∷ before) arg rest = get_elem?-behind before arg rest

counted_behind :
    (before args : List Arg)
    → AreCounted (length before) args
    → All (λ arg. get_elem? (before ++ args) arg.id ≡ some arg) args
counted_behind before [] h = tt
counted_behind before (arg ∷ args) h =
    let longer : length (before ++ (arg ∷ [])) ≡ length before + 1 =
      length-append before (arg ∷ []) in
    let rest : All (λ a. get_elem? ((before ++ (arg ∷ [])) ++ args) a.id ≡ some a) args =
      counted_behind (before ++ (arg ∷ [])) args
        (subst (λ n. AreCounted n args) (sym longer) h.1) in
    (
      ap (get_elem? (before ++ (arg ∷ args))) h.0 ∙ get_elem?-behind before arg args,
      subst (λ l. All (λ a. get_elem? l a.id ≡ some a) args) (append_assoc before (arg ∷ []) args)
          rest,
    )

pub counted-AreNumbered : (args : List Arg) → AreCounted 0 args → AreNumbered args
counted-AreNumbered args h = counted_behind [] args h

-- The arguments and the frame numbers for `frames`, from the frame number `j` and the argument
-- number `fn` on: those of the frames with a hash other than 0.
pub data IsCollected : List (List ℕ) → ℕ → ℕ → List Arg → List ℕ → Type 0 where
  at_end : (j fn : ℕ) → IsCollected [] j fn [] []
  without_hash :
      (frame : List ℕ) (frames : List (List ℕ)) (j fn : ℕ) (args : List Arg) (numbers : List ℕ)
      → flowhash frame ≡ some 0
      → IsCollected frames (j + 1) fn args numbers
      → IsCollected (frame ∷ frames) j fn args numbers
  with_hash :
      (frame : List ℕ) (frames : List (List ℕ)) (j fn h : ℕ) (args : List Arg) (numbers : List ℕ)
      → flowhash frame ≡ some h
      → h ≢ 0
      → IsCollected frames (j + 1) (fn + 1) args numbers
      → IsCollected (frame ∷ frames) j fn (record { k = h; id = fn } ∷ args) (j ∷ numbers)

-- What follows for them.
pub record Collects (frames : List (List ℕ)) (j fn : ℕ) (args : List Arg) (numbers : List ℕ)
    : Type 0 where
  pub collected : IsCollected frames j fn args numbers
  pub keys : All (λ arg. arg.k ≢ 0) args
  pub ids : AreCounted fn args
  pub few : length args ≤ length frames

module _ (crc : ℕ → ℕ) (addrs : List (List ℕ)) (dst_port : ℕ) where
  pub collect_args-Collects :
      (frames : List (List ℕ)) (j fn : ℕ)
      → AreFrames frames
      → (args : List Arg) × (numbers : List ℕ) × (collect_args crc addrs dst_port frames j fn
          ≡ some (args, numbers))
        × Collects frames j fn args numbers
  unfolding collect_args
  collect_args-Collects [] j fn h = (
    [],
    [],
    refl,
    record { collected = IsCollected.at_end j fn; keys = tt; ids = tt; few = omega arith },
  )
  collect_args-Collects (frame ∷ frames) j fn h =
      let (hash, hashed, _) = flowhash-lt frame h.0 in
      elim (ℕ_discrete hash 0) [
        | yes z ↦
            let (args, numbers, e, c) = collect_args-Collects frames (j + 1) fn h.1 in
            (
              args,
              numbers,
              rw (hashed, z) e,
              record {
                collected =
                    IsCollected.without_hash frame frames j fn args numbers (hashed ∙ ap some z)
                      c.collected;
                keys = c.keys;
                ids = c.ids;
                few = omega (arith, c.few);
              },
            )
        | no ne ↦
            let (args, numbers, e, c) = collect_args-Collects frames (j + 1) (fn + 1) h.1 in
            (
              record { k = hash; id = fn } ∷ args,
              j ∷ numbers,
              rw (hashed, ◌>>=◌, lt→ltb 0 hash (omega arith), e) refl,
              record {
                collected =
                    IsCollected.with_hash frame frames j fn hash args numbers hashed ne c.collected;
                keys = (ne, c.keys);
                ids = (refl, c.ids);
                few = omega (arith, c.few);
              },
            )
      ]
