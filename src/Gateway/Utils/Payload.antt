-- ===== src/Gateway/Utils/Payload.antt =====
-- The bound on what a deposit carries: utils/verify_payload_size.rs.
use protocol_contracts_solan.Prelude.{ℕ, ◌+◌, ◌≤◌, ◌<◌, ◌≡◌, ◌↔◌, Option, none, some, length, arith}
use protocol_contracts_solan.Prelude.Words.{Bytes}
use protocol_contracts_solan.Solana.Result.{ok, err, custom}
use protocol_contracts_solan.Gateway.Errors.{memo_length_exceeded}
use protocol_contracts_solan.Gateway.State.{RevertOptions}
use protocol_contracts_solan.Gateway.Utils.{verify_payload_size}

abbrev pub message_size : Option Bytes → ℕ
message_size none = 0
message_size (some m) = length m

abbrev pub revert_size : Option RevertOptions → ℕ
revert_size none = 0
revert_size (some o) = length o.revert_message

pub verify_payload_size_iff :
    (message : Option Bytes) (revert_options : Option RevertOptions)
    → (verify_payload_size message revert_options ≡ ok tt)
      ↔ (message_size message + revert_size revert_options ≤ 745)
unfolding verify_payload_size
verify_payload_size_iff message revert_options = ground arith

pub verify_payload_size_exceeded :
    (message : Option Bytes) (revert_options : Option RevertOptions)
    → 745 < message_size message + revert_size revert_options
    → verify_payload_size message revert_options ≡ err (custom memo_length_exceeded)
unfolding verify_payload_size
verify_payload_size_exceeded message revert_options h = ground arith
