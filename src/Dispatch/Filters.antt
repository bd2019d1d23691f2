-- ===== src/Dispatch/Filters.antt =====
-- The filter list of ipmid-new.cpp: `registerFilter` and `filterIpmiCommand`.
pub mod Accept
use phosphor_host_ipmid.Prelude.{
  if-both, ◌++◌, ℕ, zero, suc, ◌+◌, ◌≤◌, ◌<◌, ◌≡◌, ◌↔◌, refl, sym, ap, ◌∙◌, Bool, true, false, List,
  [], ◌∷◌, All, length, Option, none, some, ltb, lt→ltb, le→ltb, ◌==◌, if◌then◌else◌, eq→==, ne→==,
  arith, ℕ_discrete, inl, inr, Bool-cases, dec_lt,
}
use mathlib.Core.List.{Permᴰ}
use mathlib.Core.List.Permᴰ
use phosphor_host_ipmid.Codes.{cc_success}
use phosphor_host_ipmid.Dispatch.Request.{Request, Response, Filter, error_response}

pub record FilterTuple : Type 0 where
  pub prio : ℕ
  pub filter : Filter

-- The walk from the second entry on: the new entry goes before the first that is not above it.
unfoldable pub walk : FilterTuple → List FilterTuple → List FilterTuple
walk x [] = x ∷ []
walk x (y ∷ ys) = if ltb x.prio y.prio then y ∷ walk x ys else x ∷ y ∷ ys

-- `emplace_after` puts the entry behind the first one at the earliest.
unfoldable pub place : FilterTuple → List FilterTuple → List FilterTuple
unfolding walk
place x [] = []
place x (y ∷ ys) = if ltb x.prio y.prio then y ∷ walk x ys else y ∷ x ∷ ys

-- filterList.empty() || prio of the first entry < prio
unfoldable pub goes_first : FilterTuple → List FilterTuple → Bool
goes_first x [] = true
goes_first x (y ∷ ys) = ltb y.prio x.prio

-- The code does not return after `emplace_front`.
unfoldable pub register_filter : FilterTuple → List FilterTuple → List FilterTuple
unfolding goes_first place
register_filter x l = place x (if goes_first x l then x ∷ l else l)

-- `none` is the null response: no filter rejects the request.
unfoldable pub filter_ipmi_command : List FilterTuple → Request → Option Response
filter_ipmi_command [] request = none
filter_ipmi_command (x ∷ l) request =
    let rest = filter_ipmi_command l request in
    if x.filter request == cc_success
    then rest
    else some (error_response request (x.filter request))

-- Priorities fall along the list, from the given bound.
abbrev pub Falling : ℕ → List FilterTuple → Type 0
Falling bound [] = Unit {0}
Falling bound (x ∷ l) = (x.prio ≤ bound) × Falling x.prio l

abbrev pub IsSorted : List FilterTuple → Type 0
IsSorted [] = Unit {0}
IsSorted (x ∷ l) = Falling x.prio l

walk-Falling :
    (x : FilterTuple) (bound : ℕ) (l : List FilterTuple)
    → x.prio ≤ bound
    → Falling bound l
    → Falling bound (walk x l)
unfolding walk
walk-Falling x bound [] h s = (h, tt)
walk-Falling x bound (y ∷ l) h s = elim (dec_lt x.prio y.prio) [
  | yes above ↦ rw (lt→ltb x.prio y.prio above) (s.0, walk-Falling x y.prio l (omega arith) s.1)
  | no below ↦ rw (le→ltb x.prio y.prio (omega arith)) (h, (omega arith, s.1))
]

place-IsSorted :
    (x y : FilterTuple) (l : List FilterTuple)
    → x.prio ≤ y.prio
    → Falling y.prio l
    → IsSorted (place x (y ∷ l))
unfolding place
place-IsSorted x y l h s = elim (dec_lt x.prio y.prio) [
  | yes above ↦ rw (lt→ltb x.prio y.prio above) (walk-Falling x y.prio l (omega arith) s)
  | no below ↦ rw (le→ltb x.prio y.prio (omega arith)) (h, below_first l (omega arith) s)
]
  where
    below_first : (l : List FilterTuple) → x.prio ≡ y.prio → Falling y.prio l → Falling x.prio l
    below_first [] e s = tt
    below_first (z ∷ l) e s = (omega arith, s.1)

-- Registration keeps the filters in the order of falling priority.
pub register_filter-IsSorted :
    (x : FilterTuple) (l : List FilterTuple) → IsSorted l → IsSorted (register_filter x l)
unfolding register_filter goes_first
register_filter-IsSorted x [] s = place-IsSorted x x [] (omega arith) tt
register_filter-IsSorted x (y ∷ l) s = elim (dec_lt y.prio x.prio) [
  | yes first ↦
      rw (lt→ltb y.prio x.prio first) (place-IsSorted x x (y ∷ l) (omega arith) (omega arith, s))
  | no later ↦ rw (le→ltb y.prio x.prio (omega arith)) (place-IsSorted x y l (omega arith) s)
]

walk-perm : (x : FilterTuple) (l : List FilterTuple) → Permᴰ (walk x l) (x ∷ l)
unfolding walk
walk-perm x [] = Permᴰ.refl (x ∷ [])
walk-perm x (y ∷ ys) =
    if-both (λ (q : List FilterTuple). Permᴰ q (x ∷ y ∷ ys)) (ltb x.prio y.prio) (y ∷ walk x ys)
      (x ∷ y ∷ ys) (Permᴰ.trans (Permᴰ.cons refl (walk-perm x ys)) (Permᴰ.swap refl refl))
      (Permᴰ.refl (x ∷ y ∷ ys))

place-perm : (x y : FilterTuple) (l : List FilterTuple) → Permᴰ (place x (y ∷ l)) (x ∷ y ∷ l)
unfolding place
place-perm x y l =
    if-both (λ (q : List FilterTuple). Permᴰ q (x ∷ y ∷ l)) (ltb x.prio y.prio) (y ∷ walk x l)
      (y ∷ x ∷ l) (Permᴰ.trans (Permᴰ.cons refl (walk-perm x l)) (Permᴰ.swap refl refl))
      (Permᴰ.swap refl refl)

-- The specification: a new filter is entered twice if all the entries have a lower priority, and
-- once if one of them has not.
abbrev pub copies : FilterTuple → List FilterTuple → List FilterTuple
copies x [] = x ∷ x ∷ []
copies x (y ∷ l) = if ltb y.prio x.prio then copies x l else x ∷ []

copies-highest :
    (x : FilterTuple) (bound : ℕ) (l : List FilterTuple)
    → bound < x.prio
    → Falling bound l
    → copies x l ≡ x ∷ x ∷ []
copies-highest x bound [] h s = refl
copies-highest x bound (y ∷ l) h s =
    rw (lt→ltb y.prio x.prio (omega (arith, h, s.0)))
      (copies-highest x y.prio l (omega (arith, h, s.0)) s.1)

-- Registration into a list in the order of falling priority gives the old filters and the new one,
-- in some order: the new one twice if all the filters have a lower priority, as in an empty list,
-- and once otherwise.
pub register_filter-copies :
    (x : FilterTuple) (l : List FilterTuple)
    → IsSorted l
    → Permᴰ (register_filter x l) (copies x l ++ l)
unfolding register_filter
register_filter-copies x [] s = place-perm x x []
register_filter-copies x (y ∷ l) s = elim (dec_lt y.prio x.prio) [
  | yes first ↦
      rw (lt→ltb y.prio x.prio first, copies-highest x y.prio l first s) (place-perm x x (y ∷ l))
  | no later ↦ rw (le→ltb y.prio x.prio (omega arith)) (place-perm x y l)
]
