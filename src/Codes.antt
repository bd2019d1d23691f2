-- ===== src/Codes.antt =====
-- Completion codes, network functions and privileges of include/ipmid/api-types.hpp.
use phosphor_host_ipmid.Prelude.{ℕ}

abbrev pub cc_success : ℕ
cc_success = 0

abbrev pub cc_invalid_command : ℕ
cc_invalid_command = 0xC1

abbrev pub cc_req_data_len_invalid : ℕ
cc_req_data_len_invalid = 0xC7

abbrev pub cc_parm_out_of_range : ℕ
cc_parm_out_of_range = 0xC9

abbrev pub cc_invalid_field_request : ℕ
cc_invalid_field_request = 0xCC

abbrev pub cc_insufficient_privilege : ℕ
cc_insufficient_privilege = 0xD4

abbrev pub cc_unspecified_error : ℕ
cc_unspecified_error = 0xFF

abbrev pub net_fn_transport : ℕ
net_fn_transport = 0x0C

abbrev pub net_fn_group : ℕ
net_fn_group = 0x2C

abbrev pub net_fn_oem : ℕ
net_fn_oem = 0x2E

abbrev pub net_fn_oem_eight : ℕ
net_fn_oem_eight = 0x3E

abbrev pub cmd_wildcard : ℕ
cmd_wildcard = 0xFF
