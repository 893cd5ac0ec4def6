-- ===== src/Dramblast/Frames/Spec.antt =====
-- What `dramblast_process_frames` has to do, said of the maps that the table stands for before and
-- after it.
use net_blast.Base.{ℕ, ◌≡◌, ◌≢◌, ◌⊎◌, List, Option, none, some, get_elem?, get_or, nat_eq}
use net_blast.WordTable.{Pair, contents}
use net_blast.WordTable.Insertion.{IsFull}
use net_blast.Conshash.{LookUpTable}
use net_blast.Conshash.Fill.{backend, mac_of}
use net_blast.Dramblast.{absent, Result, Arg, dramblast_hash}
use net_blast.Dramblast.Find.Spec.{answer}

-- the key of the argument at an index, 0 if there is none
abbrev pub key_at : List Arg → ℕ → ℕ
key_at args i = elim (get_elem? args i) [ none ↦ 0 | some arg ↦ arg.k ]

module _ (crc : ℕ → ℕ) (len : ℕ) where
  abbrev pub bound : List Pair → ℕ → Option ℕ
  bound table = contents len (dramblast_hash crc len) table

  -- How the bindings may change: a flow that the lookup reports as absent may become bound to its
  -- backend. No binding is dropped or changed.
  abbrev pub Keeps : LookUpTable → List Pair → List Pair → Type 0
  Keeps backends table table' =
      (q : ℕ)
      → q ≢ 0
      → (bound table' q ≡ bound table q)
        ⊎ ((bound table q ≡ none)
            × (bound table' q ≡ some (backend backends q))
            × ((answer crc table len q 0).status ≡ absent))

  -- The result that was computed for the argument at its index.
  abbrev pub IsReply : List Pair → List Arg → Result → Type 0
  IsReply table args r = (key_at args r.id ≢ 0) × (r ≡ answer crc table len (key_at args r.id) r.id)

  -- Later insertions do not change what is bound to the key `q`.
  abbrev pub IsFinal : List Pair → List Pair → ℕ → Type 0
  IsFinal table table' q =
      ((v : ℕ) × (bound table' q ≡ some v))
      ⊎ (IsFull len (dramblast_hash crc len) table' q
          ⊎ ((answer crc table len q 0).status ≢ absent))

  -- `ret` has the MAC of the key of the argument at an index.
  abbrev pub Tells : List Pair → List Arg → List ℕ → ℕ → Type 0
  Tells table' args ret i = get_or ret i 0 ≡ mac_of (bound table' (key_at args i))
