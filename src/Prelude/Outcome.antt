-- ===== src/Prelude/Outcome.antt =====
-- A Go function that returns a value and an `error`: the errors that the modelled code tells apart.
pub data Fault : Type 0 where
  marshal_failed unmarshal_failed wrong_command head_missing : Fault
  duplicated_name name_in_use no_registry update_rejected : Fault
  no_controller channel_full no_servers all_failed : Fault
  bad_config handler_failed no_client write_failed : Fault
  no_type not_found bad_key_name no_label unsupported : Fault
  no_handler method_not_allowed request_failed already_exists : Fault
  -- not an error value: the goroutine panics at a nil pointer
  nil_dereference : Fault

pub data Result {ℓ} (A : Type ℓ) : Type ℓ where
  ok : A → Result A
  err : Fault → Result A
