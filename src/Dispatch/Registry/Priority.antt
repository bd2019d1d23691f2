-- ===== src/Dispatch/Registry/Priority.antt =====
-- Which handler serves a command after the registrations of ipmid-new.cpp.
use phosphor_host_ipmid.Dispatch.Registry.{
  register_handler, valid_net_fn, make_cmd_key, HandlerTuple, HandlerMap, find, assign, keeps,
  register_key,
}
use phosphor_host_ipmid.Prelude.{
  ==_refl, ℕ, ◌≡◌, refl, ap, ◌∙◌, Bool, true, false, List, [], ◌∷◌, Option, none, some, leb, ◌==◌,
  if◌then◌else◌, ne→==, arith, inl, inr, Bool-cases, ℕ_discrete,
}

pub find-assign :
    (key j : ℕ) (item : HandlerTuple) (m : HandlerMap)
    → find j (assign key item m) ≡ (if key == j then some item else find j m)
unfolding find assign
find-assign key j item [] = refl
find-assign key j item ((k, old) ∷ m) = ground (arith, find-assign key j item m)

-- The later of two handlers serves, unless the earlier has the higher priority.
abbrev pub over : Option HandlerTuple → Option HandlerTuple → Option HandlerTuple
over o none = o
over none (some b) = some b
over (some a) (some b) = if leb a.prio b.prio then some b else some a

over_assoc : (o p q : Option HandlerTuple) → over (over o p) q ≡ over o (over p q)
over_assoc o p none = refl
over_assoc o none (some b) = refl
over_assoc none (some a) (some b) = ground arith
over_assoc (some o) (some a) (some b) = ground arith

keeps-over :
    (o : Option HandlerTuple) (x : HandlerTuple)
    → over o (some x) ≡ (if keeps o x.prio then o else some x)
unfolding keeps
keeps-over none x = refl
keeps-over (some a) x = ground arith

-- `register_key` once the test is made.
abbrev guarded : ℕ → HandlerTuple → HandlerMap → Bool → HandlerMap × Bool
guarded key item m true = (m, false)
guarded key item m false = (assign key item m, true)

find-guarded_same :
    (key : ℕ) (item : HandlerTuple) (m : HandlerMap) (b : Bool)
    → find key (guarded key item m b).0 ≡ (if b then find key m else some item)
find-guarded_same key item m true = refl
find-guarded_same key item m false = find-assign key key item m ∙ rw (==_refl key)

find-guarded_other :
    (key j : ℕ) (item : HandlerTuple) (m : HandlerMap) (b : Bool)
    → (key == j) ≡ false
    → find j (guarded key item m b).0 ≡ find j m
find-guarded_other key j item m true e = refl
find-guarded_other key j item m false e = find-assign key j item m ∙ rw e

register_key-guarded :
    (key : ℕ) (item : HandlerTuple) (m : HandlerMap)
    → register_key key item m ≡ guarded key item m (keeps (find key m) item.prio)
unfolding register_key
register_key-guarded key item m = ground arith

pub find-register_key :
    (key j : ℕ) (item : HandlerTuple) (m : HandlerMap)
    → find j (register_key key item m).0
      ≡ (if key == j then over (find j m) (some item) else find j m)
find-register_key key j item m = elim (ℕ_discrete key j) [
  | yes same ↦
      rw (register_key-guarded key item m, ← same, ==_refl key, keeps-over (find key m) item)
        (find-guarded_same key item m (keeps (find key m) item.prio))
  | no other ↦
      rw (register_key-guarded key item m, ne→== key j other)
        (find-guarded_other key j item m (keeps (find key m) item.prio) (ne→== key j other))
]

abbrev pub register_all : HandlerMap → List (ℕ × HandlerTuple) → HandlerMap
register_all m [] = m
register_all m ((key, item) ∷ rs) = register_all (register_key key item m).0 rs

-- Of the registrations for a key, the last among those of the highest priority.
abbrev pub winner : ℕ → List (ℕ × HandlerTuple) → Option HandlerTuple
winner key [] = none
winner key ((k, item) ∷ rs) = if k == key then over (some item) (winner key rs) else winner key rs

find-register_all :
    (key : ℕ) (rs : List (ℕ × HandlerTuple)) (m : HandlerMap)
    → find key (register_all m rs) ≡ over (find key m) (winner key rs)
find-register_all key [] m = refl
find-register_all key ((k, item) ∷ rs) m =
    find-register_all key rs (register_key k item m).0
    ∙ ap (λ (o : Option HandlerTuple). over o (winner key rs)) (find-register_key k key item m)
    ∙ split (k == key)
  where
    split :
        (b : Bool)
        → over (if b then over (find key m) (some item) else find key m) (winner key rs)
          ≡ over (find key m) (if b then over (some item) (winner key rs) else winner key rs)
    split true = over_assoc (find key m) (some item) (winner key rs)
    split false = refl

-- After any registrations the handler of a command is the winner of those for its key: the last
-- one among those of the highest priority, and none where there is no registration for it.
pub find-register_all_new :
    (key : ℕ) (rs : List (ℕ × HandlerTuple)) → find key (register_all [] rs) ≡ winner key rs
unfolding find
find-register_all_new key rs = find-register_all key rs [] ∙ over-none (winner key rs)
  where
    over-none : (o : Option HandlerTuple) → over none o ≡ o
    over-none none = refl
    over-none (some x) = refl

-- The registrations of ordinary commands, as the providers make them.
pub record Registration : Type 0 where
  pub net_fn : ℕ
  pub cmd : ℕ
  pub item : HandlerTuple

abbrev pub register_handlers : HandlerMap → List Registration → HandlerMap
register_handlers m [] = m
register_handlers m (r ∷ rs) = register_handlers (register_handler r.net_fn r.cmd r.item m).0 rs

-- Those that pass the guard on the network function, with their keys.
abbrev pub accepted : List Registration → List (ℕ × HandlerTuple)
accepted [] = []
accepted (r ∷ rs) =
    if valid_net_fn r.net_fn
    then (make_cmd_key r.net_fn r.cmd, r.item) ∷ accepted rs
    else accepted rs

register_handlers-eq :
    (rs : List Registration) (m : HandlerMap)
    → register_handlers m rs ≡ register_all m (accepted rs)
unfolding register_handler
register_handlers-eq [] m = refl
register_handlers-eq (r ∷ rs) m = elim (Bool-cases (valid_net_fn r.net_fn)) [
  | inl good ↦ rw good (register_handlers-eq rs _)
  | inr bad ↦ rw bad (register_handlers-eq rs m)
]

-- After any registrations of handlers for network functions and commands, the handler found for a
-- key is the winner among those that the guard accepts.
pub find-register_handlers :
    (key : ℕ) (rs : List Registration)
    → find key (register_handlers [] rs) ≡ winner key (accepted rs)
find-register_handlers key rs =
    ap (find key) (register_handlers-eq rs []) ∙ find-register_all_new key (accepted rs)
