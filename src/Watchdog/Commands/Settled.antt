-- ===== src/Watchdog/Commands/Settled.antt =====
-- The calls of the D-Bus in app/watchdog_service.cpp leave the error reporting of
-- app/watchdog.cpp alone.
use phosphor_host_ipmid.Prelude.{if-both, ◌≡◌, refl, ◌∙◌, false, ◌==◌}
use phosphor_host_ipmid.Watchdog.Service.{
  Call, Reply, method_error, bus_exception, done, flag_value, all_values, Peer, Result, returned,
  internal_failure, domain_error, other_exception, State, and_then, found, new_method_call, replied,
  attempt, give_up, perform, find_service,
}
use phosphor_host_ipmid.Watchdog.Commands.{Answer}

-- What a step leaves alone.
pub record Same {B : Type 0} (s t : State B) : Type 0 where
  pub same_reports : t.reports ≡ s.reports
  pub same_last : t.last_call_successful ≡ s.last_call_successful

pub Same-trans : {B : Type 0} {s t u : State B} → Same s t → Same t u → Same s u
Same-trans a b = record {
  same_reports = b.same_reports ∙ a.same_reports;
  same_last = b.same_last ∙ a.same_last;
}

module _ {B : Type 0} (peer : Peer B) where
  found-Same : (s : State B) (r : Reply × B) → Same s (found peer s r).1
  found-Same s (method_error, b) = record { same_reports = refl; same_last = refl }
  found-Same s (bus_exception, b) = record { same_reports = refl; same_last = refl }
  found-Same s (done, b) = record { same_reports = refl; same_last = refl }
  found-Same s (flag_value f, b) = record { same_reports = refl; same_last = refl }
  found-Same s (all_values p, b) = record { same_reports = refl; same_last = refl }

  new_method_call-Same : (s : State B) → Same s (new_method_call peer s).1
  unfolding new_method_call
  new_method_call-Same s =
      if-both (λ (r : Result Unit × State B). Same s r.1) s.service_valid (returned tt, s)
        (found peer s (peer s.bus find_service)) (record { same_reports = refl; same_last = refl })
        (found-Same s (peer s.bus find_service))

  -- A part of a body: nothing but the bus and the cache changes.
  and_then-Same :
      {A C : Type 0} (s : State B) (m : Result A × State B)
      (rest : A → State B → Result C × State B)
      → Same s m.1
      → ((a : A) (t : State B) → Same t (rest a t).1)
      → Same s (and_then m rest).1
  and_then-Same s (returned a, t) rest h k = Same-trans h (k a t)
  and_then-Same s (internal_failure, t) rest h k = h
  and_then-Same s (domain_error, t) rest h k = h
  and_then-Same s (other_exception, t) rest h k = h

  replied-Same :
      {A : Type 0} (decode : Reply → Result A) (otherwise : State B → Result A × State B)
      (s : State B) (r : Reply × B)
      → ((t : State B) → Same t (otherwise t).1)
      → Same s (replied peer decode otherwise s r).1
  replied-Same decode otherwise s (method_error, b) k =
      Same-trans (record { same_reports = refl; same_last = refl })
        (k (record s { bus = b; service_valid = false }))
  replied-Same decode otherwise s (bus_exception, b) k = record {
    same_reports = refl;
    same_last = refl;
  }
  replied-Same decode otherwise s (done, b) k = record { same_reports = refl; same_last = refl }
  replied-Same decode otherwise s (flag_value f, b) k = record {
    same_reports = refl;
    same_last = refl;
  }
  replied-Same decode otherwise s (all_values p, b) k = record {
    same_reports = refl;
    same_last = refl;
  }

  attempt-Same :
      {A : Type 0} (call : Call) (decode : Reply → Result A)
      (otherwise : State B → Result A × State B) (s : State B)
      → ((t : State B) → Same t (otherwise t).1)
      → Same s (attempt peer call decode otherwise s).1
  unfolding attempt
  attempt-Same call decode otherwise s k =
      and_then-Same s (new_method_call peer s)
        (λ (u : Unit) (t : State B). replied peer decode otherwise t (peer t.bus call))
        (new_method_call-Same s) (λ u t. replied-Same decode otherwise t (peer t.bus call) k)

  pub perform-Same :
      {A : Type 0} (call : Call) (decode : Reply → Result A) (s : State B)
      → Same s (perform peer call decode s).1
  unfolding perform
  perform-Same {A} call decode s =
      if-both (λ (r : Result A × State B). Same s r.1) s.service_valid
        (attempt peer call decode (attempt peer call decode (give_up peer)) s)
        (attempt peer call decode (give_up peer) s)
        (attempt-Same call decode (attempt peer call decode (give_up peer)) s
          (λ t. attempt-Same call decode (give_up peer) t last))
        (attempt-Same call decode (give_up peer) s last)
    where
      last : (t : State B) → Same t (give_up peer {A = A} t).1
      last t = record { same_reports = refl; same_last = refl }

module _ {B : Type 0} where
  -- How a whole body ends: with a completion code that is not the unspecified error, or with an
  -- exception, and then nothing of the error reporting has changed.
  pub data Settled {A : Type 0} (s : State B) : Result (Answer A) × State B → Type 0 where
    settled_answer :
        (a : Answer A) (t : State B)
        → (a.cc == 255) ≡ false
        → t.reports ≡ s.reports
        → Settled s (returned a, t)
    settled_failure : (t : State B) → Same s t → Settled s (internal_failure, t)
    settled_domain : (t : State B) → Same s t → Settled s (domain_error, t)
    settled_other : (t : State B) → Same s t → Settled s (other_exception, t)

  pub Settled-later :
      {A : Type 0} {s t : State B} {r : Result (Answer A) × State B}
      → Same s t
      → Settled t r
      → Settled s r
  Settled-later h (settled_answer a u c e) = settled_answer a u c (e ∙ h.same_reports)
  Settled-later h (settled_failure u k) = settled_failure u (Same-trans h k)
  Settled-later h (settled_domain u k) = settled_domain u (Same-trans h k)
  Settled-later h (settled_other u k) = settled_other u (Same-trans h k)

  pub and_then-Settled :
      {A C : Type 0} (s : State B) (m : Result C × State B)
      (rest : C → State B → Result (Answer A) × State B)
      → Same s m.1
      → ((a : C) (t : State B) → Settled t (rest a t))
      → Settled s (and_then m rest)
  and_then-Settled s (returned a, t) rest h k = Settled-later h (k a t)
  and_then-Settled s (internal_failure, t) rest h k = settled_failure t h
  and_then-Settled s (domain_error, t) rest h k = settled_domain t h
  and_then-Settled s (other_exception, t) rest h k = settled_other t h
