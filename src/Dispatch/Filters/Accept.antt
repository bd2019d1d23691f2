-- ===== src/Dispatch/Filters/Accept.antt =====
-- Which requests the filters of ipmid-new.cpp let through.
use phosphor_host_ipmid.Prelude.{
  ◌≡◌, ◌↔◌, refl, List, [], ◌∷◌, All, none, some, ltb, eq→==, ne→==, ℕ_discrete, inl, inr,
  Bool-cases,
}
use phosphor_host_ipmid.Codes.{cc_success}
use phosphor_host_ipmid.Dispatch.Request.{Request, Response, error_response}
use phosphor_host_ipmid.Dispatch.Filters.{
  FilterTuple, walk, place, goes_first, register_filter, filter_ipmi_command,
}

-- A filter accepts the request.
abbrev pub Accepts : Request → FilterTuple → Type 0
Accepts request x = x.filter request ≡ cc_success

module _ (r : Request) where
  abbrev AllAccept : List FilterTuple → Type 0
  AllAccept = All (Accepts r)

  filter_none : (l : List FilterTuple) → AllAccept l → filter_ipmi_command l r ≡ none
  unfolding filter_ipmi_command
  filter_none [] h = refl
  filter_none (x ∷ l) h = rw (eq→== (x.filter r) 0 h.0) (filter_none l h.1)

  some_not_none : (a : Response) → some a ≡ none → ⊥
  some_not_none a e = cc

  none_filter : (l : List FilterTuple) → filter_ipmi_command l r ≡ none → AllAccept l
  unfolding filter_ipmi_command
  none_filter [] h = tt
  none_filter (x ∷ l) h = elim (ℕ_discrete (x.filter r) 0) [
    | yes good ↦ (good, none_filter l (rw (eq→== (x.filter r) 0 good) at h))
    | no bad ↦
        absurd (some_not_none (error_response r (x.filter r)) (rw (ne→== (x.filter r) 0 bad) at h))
  ]

  All-walk : (x : FilterTuple) (l : List FilterTuple) → AllAccept (walk x l) ↔ AllAccept (x ∷ l)
  unfolding walk
  All-walk x [] = (λ h. h, λ h. h)
  All-walk x (y ∷ l) = elim (Bool-cases (ltb x.prio y.prio)) [
    | inl e ↦
        let (to, from) = All-walk x l in
        rw e (λ h. ((to h.1).0, (h.0, (to h.1).1)), λ h. (h.1.0, from (h.0, h.1.1)))
    | inr e ↦ rw e (λ h. h, λ h. h)
  ]

  All-place :
      (x y : FilterTuple) (l : List FilterTuple)
      → AllAccept (place x (y ∷ l)) ↔ (Accepts r x × Accepts r y × AllAccept l)
  unfolding place
  All-place x y l = elim (Bool-cases (ltb x.prio y.prio)) [
    | inl e ↦
        let (to, from) = All-walk x l in
        rw e (λ h. ((to h.1).0, h.0, (to h.1).1), λ h. (h.1, from (h.0, h.2)))
    | inr e ↦ rw e (λ h. (h.1.0, h.0, h.1.1), λ h. (h.1, (h.0, h.2)))
  ]

  All-register_filter :
      (x : FilterTuple) (l : List FilterTuple)
      → AllAccept (register_filter x l) ↔ (Accepts r x × AllAccept l)
  unfolding register_filter goes_first
  All-register_filter x [] =
      let (to, from) = All-place x x [] in (λ h. ((to h).0, tt), λ h. from (h.0, h.0, tt))
  All-register_filter x (y ∷ l) = elim (Bool-cases (ltb y.prio x.prio)) [
    | inl e ↦
        let (to, from) = All-place x x (y ∷ l) in
        rw e (λ h. ((to h).0, (to h).2), λ h. from (h.0, h.0, h.1))
    | inr e ↦
        let (to, from) = All-place x y l in
        rw e (λ h. ((to h).0, ((to h).1, (to h).2)), λ h. from (h.0, h.1.0, h.1.1))
  ]

  -- The filters let a request through after a registration exactly when the new filter and those
  -- from before accept it.
  pub register_filter-Accepts_iff :
      (x : FilterTuple) (l : List FilterTuple)
      → (filter_ipmi_command (register_filter x l) r ≡ none)
        ↔ (Accepts r x × (filter_ipmi_command l r ≡ none))
  register_filter-Accepts_iff x l =
      let (to, from) = All-register_filter x l in
      (
        λ h. let a = to (none_filter (register_filter x l) h) in (a.0, filter_none l a.1),
        λ h. filter_none (register_filter x l) (from (h.0, none_filter l h.1)),
      )
