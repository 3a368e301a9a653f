-- ===== src/Escalation/Positions.antt =====
-- The positions of the steps of a policy, and rounds of them.
use uptimeflow.Common.{
  ℕ, zero, suc, ◌-◌, ◌≤◌, ◌<◌, ◌≡◌, refl, ap, ◌∙◌, some, List, [], ◌∷◌, ◌++◌, map, length,
  get_elem?, arith,
}
use uptimeflow.Escalation.Policy.{StepRow}

-- The positions of the steps from an index on.
abbrev pub positions_from : List StepRow → ℕ → List ℕ
positions_from [] i = []
positions_from (x ∷ xs) zero = x.position ∷ positions_from xs zero
positions_from (x ∷ xs) (suc i) = positions_from xs i

abbrev pub positions : List StepRow → List ℕ
positions steps = map (λ (x : StepRow). x.position) steps

-- A list, so many times over.
abbrev pub times : ℕ → List ℕ → List ℕ
times zero ps = []
times (suc n) ps = ps ++ times n ps

pub positions_from-all : (steps : List StepRow) → positions_from steps 0 ≡ positions steps
positions_from-all [] = refl
positions_from-all (x ∷ xs) = ap (λ ps. x.position ∷ ps) (positions_from-all xs)

positions_from-end : (steps : List StepRow) (i : ℕ) → length steps ≤ i → positions_from steps i ≡ []
positions_from-end [] i h = refl
positions_from-end (x ∷ xs) zero h = absurd (omega arith)
positions_from-end (x ∷ xs) (suc i) h = positions_from-end xs i (omega arith)

pub positions_from-next :
    (steps : List StepRow) (i : ℕ) (x : StepRow)
    → get_elem? steps i ≡ some x
    → positions_from steps i ≡ x.position ∷ positions_from steps (suc i)
positions_from-next [] i x h = cc
positions_from-next (y ∷ []) zero x h = ground arith
positions_from-next (y ∷ (z ∷ ys)) zero x h = ground arith
positions_from-next (y ∷ ys) (suc i) x h = positions_from-next ys i x h

pub times-positive : (n : ℕ) (ps : List ℕ) → 0 < n → times n ps ≡ ps ++ times (n - 1) ps
times-positive zero ps h = absurd (omega arith)
times-positive (suc n) ps h = let shrunk : suc n - 1 ≡ n = omega arith in rw shrunk refl

-- The last step of a round.
pub positions_from-last :
    (steps : List StepRow) (i : ℕ) (x : StepRow)
    → get_elem? steps i ≡ some x
    → length steps ≤ suc i
    → positions_from steps i ≡ x.position ∷ []
positions_from-last steps i x e h =
    positions_from-next steps i x e
    ∙ ap (λ ps. x.position ∷ ps) (positions_from-end steps (suc i) h)
