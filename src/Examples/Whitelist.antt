-- ===== src/Examples/Whitelist.antt =====
-- A request on the system interface that whitelist-filter.cpp lets through.
use phosphor_host_ipmid.Prelude.{
  ℕ, zero, suc, ◌≡◌, ◌≢◌, ◌↔◌, ◌⊎◌, refl, true, false, List, [], ◌∷◌, arith,
}
use phosphor_host_ipmid.Message.Payload.{of_raw}
use phosphor_host_ipmid.Dispatch.Request.{Request}
use phosphor_host_ipmid.Whitelist.{filter_message}
use phosphor_host_ipmid.Whitelist.Search.{Sorted, Listed, filter_message_iff}

abbrev table : List (ℕ × ℕ)
table = (6, 1) ∷ (6, 36) ∷ (10, 64) ∷ []

abbrev get_sel_info : Request
get_sel_info = record {
  ctx = record {
    net_fn = 10;
    cmd = 64;
    channel = 15;
    user_id = 0;
    session_id = 0;
    priv = 4;
    rq_sa = 32;
  };
  payload = of_raw [];
}

table-Sorted : Sorted table
table-Sorted zero zero h k = refl
table-Sorted zero (suc zero) h k = refl
table-Sorted zero (suc (suc zero)) h k = refl
table-Sorted (suc zero) (suc zero) h k = refl
table-Sorted (suc zero) (suc (suc zero)) h k = refl
table-Sorted (suc (suc zero)) (suc (suc zero)) h k = refl
table-Sorted (suc i) zero h k = absurd (omega arith)
table-Sorted (suc (suc i)) (suc zero) h k = absurd (omega arith)
table-Sorted (suc (suc (suc i))) (suc (suc zero)) h k = absurd (omega arith)
table-Sorted i (suc (suc (suc j))) h k = absurd (omega arith)

filter_message_iff_example :
    (filter_message table true get_sel_info ≡ 0)
    ↔ ((get_sel_info.ctx.channel ≢ 15) ⊎ ((true ≡ false) ⊎ Listed table (10, 64)))
filter_message_iff_example = filter_message_iff table true get_sel_info table-Sorted
