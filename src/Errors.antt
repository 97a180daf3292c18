-- ===== src/Errors.antt =====
-- src/kafka_a2a/errors.py, and `RpcError` and `RpcResponse` of src/kafka_a2a/protocol.py: the errors
-- that a request can end in.
use kafka_a2a.Common.{String, Option, some, [], ◌∷◌}
use kafka_a2a.Common.Int.{ℤ, negsuc}
use kafka_a2a.Common.Value.{Metadata, str}

pub data A2AErrorCode : Type 0 where
  parse_error invalid_request method_not_found invalid_params internal_error : A2AErrorCode
  task_not_found task_not_cancelable push_notification_not_supported : A2AErrorCode
  unsupported_operation content_type_not_supported invalid_agent_response : A2AErrorCode
  authenticated_extended_card_not_configured unauthenticated permission_denied : A2AErrorCode

-- the number on the wire: `negsuc n` is -(n + 1)
unfoldable pub number : A2AErrorCode → ℤ
number parse_error = negsuc 32699
number invalid_request = negsuc 32599
number method_not_found = negsuc 32600
number invalid_params = negsuc 32601
number internal_error = negsuc 32602
number task_not_found = negsuc 32000
number task_not_cancelable = negsuc 32001
number push_notification_not_supported = negsuc 32002
number unsupported_operation = negsuc 32003
number content_type_not_supported = negsuc 32004
number invalid_agent_response = negsuc 32005
number authenticated_extended_card_not_configured = negsuc 32006
number unauthenticated = negsuc 32009
number permission_denied = negsuc 32010

pub record A2AError : Type 0 where
  pub code : A2AErrorCode
  pub message : String
  pub details : Option Metadata

-- The exceptions of a handler: an `A2AError`, or another one with its text.
pub data Exc : Type 0 where
  a2a : A2AError → Exc
  other : String → Exc

pub record RpcError : Type 0 where
  pub code : ℤ
  pub message : String
  pub details : Option Metadata

unfoldable pub from_exc : Exc → RpcError
unfolding number
from_exc (a2a e) = record { code = number e.code; message = e.message; details = e.details }
from_exc (other detail) = record {
  code = number internal_error;
  message = "Internal error";
  details = some (("detail", str detail) ∷ []);
}
