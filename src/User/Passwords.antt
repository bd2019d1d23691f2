-- ===== src/User/Passwords.antt =====
-- The handlers of user_channel/usercommands.cpp that take the bytes of the request: Set User Name, Get
-- User Name and Set User Password. The structures lie over the bytes, the lowest bits first. A name
-- or a password that does not end with a zero is read on by the code behind the request; the bytes
-- there are taken to be zeros.
use phosphor_host_ipmid.Prelude.{
  ℕ, ◌+◌, ◌/◌, ◌%◌, Bool, not, ◌&&◌, ◌||◌, List, [], ◌==◌, ltb, if◌then◌else◌, get_or, take, drop,
  length, same,
}
use phosphor_host_ipmid.Codes.{
  cc_success, cc_req_data_len_invalid, cc_parm_out_of_range, cc_invalid_field_request,
}
use phosphor_host_ipmid.User.Privilege.{is_valid_user_id}
use phosphor_host_ipmid.User.Table.{c_string, padded}
use phosphor_host_ipmid.User.Access.{System, Action, ◌>>=◌, pure}
use phosphor_host_ipmid.User.Commands.{get_user_name, set_user_password, set_user_enabled_state}
use phosphor_host_ipmid.User.Layer.{ipmi_user_set_user_name}

abbrev pub user_id_of : List ℕ → ℕ
user_id_of request = get_or request 0 0 % 64

abbrev pub max_ipmi20_password_size : ℕ
max_ipmi20_password_size = 20

abbrev pub max_ipmi15_password_size : ℕ
max_ipmi15_password_size = 16

abbrev pub disable_user : ℕ
disable_user = 0

abbrev pub enable_user : ℕ
enable_user = 1

abbrev pub set_password : ℕ
set_password = 2

abbrev pub test_password : ℕ
test_password = 3

abbrev pub operation_of : List ℕ → ℕ
operation_of request = get_or request 1 0 % 4

-- Bit 7 of the first byte: a password of 20 bytes.
abbrev pub ipmi20_of : List ℕ → Bool
ipmi20_of request = get_or request 0 0 / 128 % 2 == 1

-- `uint8_t passwordLength = *dataLen - 2`
abbrev pub password_length : List ℕ → ℕ
password_length request = (length request + 254) % 256

abbrev pub cc_passwd_fail_mismatch : ℕ
cc_passwd_fail_mismatch = 0x80

-- The two tests of the length.
unfoldable pub is_length_valid : List ℕ → Bool
is_length_valid request =
    not (ltb (length request) 2)
    && not (
        (operation_of request == disable_user || operation_of request == enable_user)
        && ltb 22 (length request))
    && not (
        (operation_of request == set_password || operation_of request == test_password)
        && not (
            password_length request
            == (if ipmi20_of request then max_ipmi20_password_size else max_ipmi15_password_size)))

module _ {B : Type 0} (system : System B) where
  unfoldable pub ipmi_set_user_name : List ℕ → Action B ℕ
  ipmi_set_user_name request =
      if not (length request == 17)
      then pure cc_req_data_len_invalid
      else if not (get_or request 0 0 / 64 % 4 == 0)
      then pure cc_invalid_field_request
      else if not (is_valid_user_id (user_id_of request))
      then pure cc_parm_out_of_range
      else ipmi_user_set_user_name system (user_id_of request) (drop 1 request)

  abbrev pub name_answer : ℕ × List ℕ → ℕ × List ℕ
  name_answer (code, name) =
      if code == cc_success then (cc_success, padded name) else (cc_parm_out_of_range, [])

  -- The code, and the 16 bytes of the answer.
  unfoldable pub ipmi_get_user_name : List ℕ → Action B (ℕ × List ℕ)
  ipmi_get_user_name request =
      if not (length request == 1)
      then pure (cc_req_data_len_invalid, [])
      else get_user_name system (user_id_of request) [] >>= (λ r. pure (name_answer r))

  -- The password that passwd_mgr.cpp keeps for a name is a parameter.
  abbrev pub tested : (List ℕ → List ℕ) → List ℕ → List ℕ → ℕ
  tested password_of user_name request =
      if same (password_of user_name) (take (password_length request) (c_string (drop 2 request)))
      then cc_success
      else cc_passwd_fail_mismatch

  abbrev pub operate : (List ℕ → List ℕ) → List ℕ → ℕ × List ℕ → Action B ℕ
  operate password_of request (code, user_name) =
      if not (code == cc_success)
      then pure cc_parm_out_of_range
      else if operation_of request == set_password
      then set_user_password system (user_id_of request) (drop 2 request)
      else if operation_of request == enable_user || operation_of request == disable_user
      then set_user_enabled_state system (user_id_of request) (operation_of request == enable_user)
      else pure (tested password_of user_name request)

  -- A request of less than two bytes is refused before its bytes are read.
  unfoldable pub ipmi_set_user_password : (List ℕ → List ℕ) → List ℕ → Action B ℕ
  ipmi_set_user_password password_of request =
      if not (is_length_valid request)
      then pure cc_req_data_len_invalid
      else get_user_name system (user_id_of request) [] >>= operate password_of request
