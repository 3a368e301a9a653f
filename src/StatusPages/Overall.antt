-- ===== src/StatusPages/Overall.antt =====
-- The overall status of a public page, from apps/api/src/services/status-page.service.ts.
use uptimeflow.Common.{
  ◌≤◌, ◌≡◌, refl, subst, Bool, true, ◌||◌, List, [], ◌∷◌, ◌==◌, ltb, any, All, Bool-cases, inl, inr,
  arith,
}
use uptimeflow.StatusPages.PublicPage.{
  PageRow, PublicComponent, ComponentStatus, status_severity, worst_of, to_public_page,
}

-- The severity of the fold is not below the one it starts from.
worst_of-start :
    (w : ComponentStatus) (cs : List PublicComponent)
    → status_severity w ≤ status_severity (worst_of w cs)
unfolding worst_of
worst_of-start w [] = omega arith
worst_of-start w (c ∷ cs) = elim (Bool-cases (ltb (status_severity w) (status_severity c.status))) [
  | inl e ↦ ground (arith, e, worst_of-start c.status cs)
  | inr e ↦ ground (arith, e, worst_of-start w cs)
]

-- No component is above the status `w`.
abbrev pub IsBound : List PublicComponent → ComponentStatus → Type 0
IsBound cs w = All (λ (c : PublicComponent). status_severity c.status ≤ status_severity w) cs

worst_of-IsBound : (w : ComponentStatus) (cs : List PublicComponent) → IsBound cs (worst_of w cs)
unfolding worst_of
worst_of-IsBound w [] = tt
worst_of-IsBound w (c ∷ cs) =
    elim (Bool-cases (ltb (status_severity w) (status_severity c.status))) [
      | inl e ↦
          let step : worst_of c.status cs ≡ worst_of w (c ∷ cs) = rw e refl in
          subst (IsBound (c ∷ cs)) step (worst_of-start c.status cs, worst_of-IsBound c.status cs)
      | inr e ↦
          let step : worst_of w cs ≡ worst_of w (c ∷ cs) = rw e refl in
          subst (IsBound (c ∷ cs)) step
            (ground (arith, e, worst_of-start w cs), worst_of-IsBound w cs)
    ]

abbrev pub is_as_severe : ComponentStatus → PublicComponent → Bool
is_as_severe w c = status_severity c.status == status_severity w

worst_of-attained :
    (w : ComponentStatus) (cs : List PublicComponent)
    → (status_severity w == status_severity (worst_of w cs)
        || any (is_as_severe (worst_of w cs)) cs)
      ≡ true
unfolding worst_of
worst_of-attained w [] = ground arith
worst_of-attained w (c ∷ cs) =
    elim (Bool-cases (ltb (status_severity w) (status_severity c.status))) [
      | inl e ↦ ground (arith, e, worst_of-attained c.status cs)
      | inr e ↦ ground (arith, e, worst_of-attained w cs)
    ]

worst_of-operational :
    (cs : List PublicComponent)
    → (status_severity (worst_of ComponentStatus.operational cs) == 0
        || any (is_as_severe (worst_of ComponentStatus.operational cs)) cs)
      ≡ true
unfolding status_severity
worst_of-operational cs =
    let attained = worst_of-attained ComponentStatus.operational cs in ground (arith, attained)

-- No component that a public page shows is more severe than the page's overall status, and where that
-- status is more severe than operational, some component shown has its severity.
pub overall_is_worst :
    (row : PageRow)
    → IsBound (to_public_page row).components (to_public_page row).overall_status
      × (status_severity (to_public_page row).overall_status == 0
          || any (is_as_severe (to_public_page row).overall_status) (to_public_page row).components)
        ≡ true
unfolding to_public_page
overall_is_worst row = (worst_of-IsBound _ _, worst_of-operational (to_public_page row).components)
