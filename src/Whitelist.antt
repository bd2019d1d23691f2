-- ===== src/Whitelist.antt =====
-- whitelist-filter.cpp: the filter of commands on the system interface. The table of the allowed
-- commands is generated, and a parameter.
pub mod Search
use phosphor_host_ipmid.Prelude.{
  ℕ, zero, suc, ◌+◌, ◌-◌, ◌/◌, Bool, true, false, not, ◌&&◌, ◌||◌, List, [], ◌∷◌, Option, none,
  some, ltb, ◌==◌, if◌then◌else◌, length, get_or,
}
use phosphor_host_ipmid.Codes.{cc_success, cc_insufficient_privilege}
use phosphor_host_ipmid.Dispatch.Request.{Request}

-- A network function and a command, in the order of `std::pair`.
abbrev pub before : ℕ × ℕ → ℕ × ℕ → Bool
before x y = ltb x.0 y.0 || not (ltb y.0 x.0) && ltb x.1 y.1

abbrev pub at : List (ℕ × ℕ) → ℕ → ℕ × ℕ
at whitelist i = get_or whitelist i (0, 0)

-- The loop of `std::lower_bound`. Each round makes the length smaller, so as many rounds as the
-- table is long are enough.
unfoldable pub lower_bound_loop : ℕ → List (ℕ × ℕ) → ℕ × ℕ → ℕ → ℕ → ℕ
lower_bound_loop zero whitelist value first len = first
lower_bound_loop (suc fuel) whitelist value first len =
    let half = len / 2 in
    let right = lower_bound_loop fuel whitelist value (first + half + 1) (len - half - 1) in
    let left = lower_bound_loop fuel whitelist value first half in
    if len == 0 then first else if before (at whitelist (first + half)) value then right else left

unfoldable pub binary_search : List (ℕ × ℕ) → ℕ × ℕ → Bool
unfolding lower_bound_loop
binary_search whitelist value =
    let i = lower_bound_loop (length whitelist) whitelist value 0 (length whitelist) in
    not (i == length whitelist) && not (before value (at whitelist i))

abbrev pub channel_system_iface : ℕ
channel_system_iface = 15

unfoldable pub filter_message : List (ℕ × ℕ) → Bool → Request → ℕ
unfolding binary_search
filter_message whitelist restricted_mode request =
    if request.ctx.channel == channel_system_iface && restricted_mode
    then (if not (binary_search whitelist (request.ctx.net_fn, request.ctx.cmd))
        then cc_insufficient_privilege
        else cc_success)
    else cc_success

-- The mode of the setting, of which the code knows one; `restrictedMode` starts as true.
pub data Modes : Type 0 where
  whitelist_mode : Modes
  other_mode : Modes

abbrev pub is_whitelist : Modes → Bool
is_whitelist whitelist_mode = true
is_whitelist other_mode = false

-- The reply to the request for the setting; `none` is an error, which restricts.
abbrev pub cached_restricted_mode : Option Modes → Bool
cached_restricted_mode none = true
cached_restricted_mode (some mode) = is_whitelist mode

-- The properties that changed: `none` is another property than the mode.
unfoldable pub handle_restricted_mode_change : List (Option Modes) → Bool → Bool
handle_restricted_mode_change [] restricted = restricted
handle_restricted_mode_change (none ∷ properties) restricted =
    handle_restricted_mode_change properties restricted
handle_restricted_mode_change (some mode ∷ properties) restricted =
    handle_restricted_mode_change properties (is_whitelist mode)
