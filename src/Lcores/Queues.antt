-- ===== src/Lcores/Queues.antt =====
-- The queues that the cores have, and those that they are to have.
use mathlib.Core.List.{Perm, append_assoc, perm_append_comm, perm_middle}
use mathlib.Core.List.Perm
use net_blast.Base.{
  ℕ, zero, suc, ◌+◌, ◌^◌, ◌<◌, sym, arith, ◌==◌, List, [], ◌∷◌, ◌++◌, length, get_or, set,
  if◌then◌else◌, subst, bit_and,
}
use net_blast.Lcores.{Confs}

-- the (port, queue) pairs of all cores
abbrev pub assigned : Confs → List (ℕ × ℕ)
assigned [] = []
assigned (queues ∷ confs) = queues ++ assigned confs

pub assigned-set :
    (confs : Confs) (i : ℕ) (x : ℕ × ℕ)
    → i < length confs
    → Perm (assigned (set confs i (get_or confs i [] ++ x ∷ []))) (x ∷ assigned confs)
assigned-set [] i x h = absurd (omega arith)
assigned-set (c ∷ confs) zero x h =
    subst (λ l. Perm l (x ∷ (c ++ assigned confs))) (sym (append_assoc c (x ∷ []) (assigned confs)))
      (perm_middle c (assigned confs))
assigned-set (c ∷ confs) (suc i) x h =
    Perm.trans (Perm.append_left c (assigned-set confs i x (omega arith)))
      (perm_middle c (assigned confs))

pub assigned_before :
    (here later before : List (ℕ × ℕ))
    → Perm (later ++ (here ++ before)) ((here ++ later) ++ before)
assigned_before here later before =
    subst (λ l. Perm l ((here ++ later) ++ before)) (append_assoc later here before)
      (Perm.append_right before (perm_append_comm later here))

-- `n` queues of a port, from the queue `q` on
abbrev pub queues_of : ℕ → ℕ → ℕ → List (ℕ × ℕ)
queues_of port zero q = []
queues_of port (suc n) q = (port, q) ∷ queues_of port n (q + 1)

-- the first `n` queues of every enabled port
abbrev pub all_queues : ℕ → ℕ → List ℕ → List (ℕ × ℕ)
all_queues mask n [] = []
all_queues mask n (port ∷ ports) =
    (if bit_and mask (2 ^ port) == 0 then [] else queues_of port n 0) ++ all_queues mask n ports
