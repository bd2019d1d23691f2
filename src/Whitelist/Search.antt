-- ===== src/Whitelist/Search.antt =====
-- The binary search of whitelist-filter.cpp finds what is in the table.
use phosphor_host_ipmid.Prelude.{
  ℕ, zero, suc, ◌+◌, ◌-◌, ◌/◌, ◌≤◌, ◌<◌, ◌≡◌, ◌≢◌, ◌↔◌, ◌⊎◌, inl, inr, refl, sym, ap, ap₂, ◌∙◌,
  Bool, true, false, not, ◌&&◌, List, ◌==◌, if◌then◌else◌, length, arith, Bool-cases, ℕ_discrete,
  eq→==, ne→==, dec_lt,
}
use phosphor_host_ipmid.Codes.{cc_success, cc_insufficient_privilege}
use phosphor_host_ipmid.Dispatch.Request.{Request}
use phosphor_host_ipmid.Whitelist.{
  before, at, lower_bound_loop, binary_search, channel_system_iface, filter_message,
}

-- The table is in the order of the pairs.
abbrev pub Sorted : List (ℕ × ℕ) → Type 0
Sorted whitelist =
    (i j : ℕ) → i ≤ j → j < length whitelist → before (at whitelist j) (at whitelist i) ≡ false

-- The command is in the table.
abbrev pub Listed : List (ℕ × ℕ) → ℕ × ℕ → Type 0
Listed whitelist value = (i : ℕ) × ((i < length whitelist) × (at whitelist i ≡ value))

before_irrefl : (x : ℕ × ℕ) → before x x ≡ false
before_irrefl x = ground arith

before-between : (x y v : ℕ × ℕ) → before x v ≡ true → before x y ≡ false → before y v ≡ true
before-between (a, b) (c, d) (e, f) h k = ground arith

before-antisym : (x y : ℕ × ℕ) → before x y ≡ false → before y x ≡ false → x ≡ y
before-antisym (a, b) (c, d) h k = ap₂ (λ (n m : ℕ). (n, m)) first second
  where
    first : a ≡ c
    first = ground arith

    second : b ≡ d
    second = ground arith

module _ (whitelist : List (ℕ × ℕ)) (value : ℕ × ℕ) where
  -- The entries below `i` are before the value, and those from `j` on are not.
  record Split (i j : ℕ) : Type 0 where
    inside : j ≤ length whitelist
    below : (k : ℕ) → k < i → before (at whitelist k) value ≡ true
    above : (k : ℕ) → j ≤ k → k < length whitelist → before (at whitelist k) value ≡ false

  not_before : (x y : ℕ × ℕ) → before x value ≡ false → before y x ≡ false → before y value ≡ false
  not_before x y h k = elim (Bool-cases (before y value)) [
    | inl e ↦ absurd (differ (sym (before-between y x value e k) ∙ h))
    | inr e ↦ e
  ]
    where
      differ : true ≡ false → ⊥
      differ e = cc

  lower_bound_loop-Split :
      (fuel first len : ℕ)
      → Sorted whitelist
      → len ≤ fuel
      → Split first (first + len)
      → let r = lower_bound_loop fuel whitelist value first len in Split r r
  unfolding lower_bound_loop
  lower_bound_loop-Split zero first len sorted enough s = record {
    inside = omega (arith, s.inside);
    below = s.below;
    above = λ k h. s.above k (omega (arith, h));
  }
  lower_bound_loop-Split (suc fuel) first len sorted enough s = elim (ℕ_discrete len 0) [
    | yes e ↦ rw (eq→== len 0 e) (record {
      inside = omega (arith, s.inside);
      below = s.below;
      above = λ k h. s.above k (omega (arith, h));
    })
    | no e ↦ rw (ne→== len 0 e) (elim (Bool-cases (before (at whitelist (first + len / 2)) value)) [
      | inl h ↦ rw h (
          lower_bound_loop-Split fuel (first + len / 2 + 1) (len - len / 2 - 1) sorted (omega arith)
            (to_right e h))
      | inr h ↦
          rw h (lower_bound_loop-Split fuel first (len / 2) sorted (omega arith) (to_left e h))
    ])
  ]
    where
      mid : ℕ
      mid = first + len / 2

      to_right :
          len ≢ 0
          → before (at whitelist mid) value ≡ true
          → Split (mid + 1) (mid + 1 + (len - len / 2 - 1))
      to_right some h = record {
        inside = omega (arith, s.inside);
        below = λ k less.
            before-between (at whitelist mid) (at whitelist k) value h
              (sorted k mid (omega (arith, less)) (omega (arith, s.inside)));
        above = λ k more. s.above k (omega (arith, more));
      }

      to_left : len ≢ 0 → before (at whitelist mid) value ≡ false → Split first mid
      to_left some h = record {
        inside = omega (arith, s.inside);
        below = s.below;
        above = λ k more within.
            not_before (at whitelist mid) (at whitelist k) h (sorted mid k more within);
      }

  abbrev found_at : ℕ
  found_at = lower_bound_loop (length whitelist) whitelist value 0 (length whitelist)

  found_at-Split : Sorted whitelist → Split found_at found_at
  found_at-Split sorted =
      lower_bound_loop-Split (length whitelist) 0 (length whitelist) sorted (omega arith) (record {
        inside = omega arith;
        below = λ k less. elim less [ ];
        above = λ k more within. absurd (omega (arith, more, within));
      })

  neither : (a b : Bool) → (not a && not b) ≡ true → (a ≡ false) × (b ≡ false)
  neither true b e = absurd (differ e)
    where
      differ : false ≡ true → ⊥
      differ e = cc
  neither false true e = absurd (differ e)
    where
      differ : false ≡ true → ⊥
      differ e = cc
  neither false false e = (refl, refl)

  found-Listed : Sorted whitelist → binary_search whitelist value ≡ true → Listed whitelist value
  unfolding binary_search
  found-Listed sorted h =
      let s = found_at-Split sorted in
      let n = neither (found_at == length whitelist) (before value (at whitelist found_at)) h in
      let within = below_length s.inside n.0 in
      (
        found_at,
        (
          within,
          before-antisym (at whitelist found_at) value (s.above found_at (omega arith) within) n.1,
        ),
      )
    where
      below_length :
          found_at ≤ length whitelist
          → (found_at == length whitelist) ≡ false
          → found_at < length whitelist
      below_length inside e = ground arith

  Listed-found : Sorted whitelist → Listed whitelist value → binary_search whitelist value ≡ true
  unfolding binary_search
  Listed-found sorted (i, (within, same)) =
      let s = found_at-Split sorted in
      elim (dec_lt i found_at) [
        | yes less ↦ absurd (
            differ (
              sym (s.below i less) ∙ ap (λ (x : ℕ × ℕ). before x value) same ∙ before_irrefl value))
        | no more ↦ rw (
          ne→== found_at (length whitelist) (λ e. absurd (omega (arith, e, within, more))),
          sym (ap (λ (x : ℕ × ℕ). before x (at whitelist found_at)) same)
              ∙ sorted found_at i (omega (arith, more)) within,
        )
      ]
    where
      differ : true ≡ false → ⊥
      differ e = cc

abbrev code_of : Bool → Bool → Bool → ℕ
code_of system restricted found =
    if system && restricted
    then (if not found then cc_insufficient_privilege else cc_success)
    else cc_success

decided :
    (system restricted found : Bool)
    → (code_of system restricted found ≡ cc_success)
      ↔ ((system ≡ false) ⊎ ((restricted ≡ false) ⊎ (found ≡ true)))
decided false restricted found = (λ h. inl refl, λ why. refl)
decided true false found = (λ h. inr (inl refl), λ why. refl)
decided true true true = (λ h. inr (inr refl), λ why. refl)
decided true true false = (
  λ h. absurd (omega (arith, h)),
  λ why. elim why [
    | inl e ↦ absurd (differ e)
    | inr (inl e) ↦ absurd (differ e)
    | inr (inr e) ↦ absurd (differ (sym e))
  ],
)
  where
    differ : true ≡ false → ⊥
    differ e = cc

-- The filter lets a request through exactly when it does not come from the system interface, or the
-- mode does not restrict, or its command is in the table, if the table is in order.
pub filter_message_iff :
    (whitelist : List (ℕ × ℕ)) (restricted_mode : Bool) (request : Request)
    → Sorted whitelist
    → (filter_message whitelist restricted_mode request ≡ cc_success) ↔ (
        (request.ctx.channel ≢ channel_system_iface)
        ⊎ ((restricted_mode ≡ false) ⊎ Listed whitelist (request.ctx.net_fn, request.ctx.cmd)))
unfolding filter_message
filter_message_iff whitelist restricted_mode request sorted =
    let value : ℕ × ℕ = (request.ctx.net_fn, request.ctx.cmd) in
    let (to, from) =
      decided (request.ctx.channel == channel_system_iface) restricted_mode
        (binary_search whitelist value) in
    (
      λ h. elim (to h) [
        | inl other ↦ inl (λ e. differ (sym (eq→== request.ctx.channel 15 e) ∙ other))
        | inr (inl free) ↦ inr (inl free)
        | inr (inr found) ↦ inr (inr (found-Listed whitelist value sorted found))
      ],
      λ why. elim why [
        | inl other ↦ from (inl (ne→== request.ctx.channel 15 other))
        | inr (inl free) ↦ from (inr (inl free))
        | inr (inr listed) ↦ from (inr (inr (Listed-found whitelist value sorted listed)))
      ],
    )
  where
    differ : true ≡ false → ⊥
    differ e = cc
