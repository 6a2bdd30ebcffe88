-- ===== src/Rpc/Error.antt =====
-- src/rpc/mod.rs: `RpcError`. An i16 is its 16-bit pattern.
use busrt.Protocol.Error.{Error, error_code}
use busrt.Rpc.Event.{RpcEventKind, error_reply, RpcEvent, event_code, event_payload, and_then}
use busrt.Base.{ℕ, ◌+◌, ◌-◌, ◌^◌, Option, none, some, Bytes}

-- A negative number as an i16
abbrev pub minus : ℕ → ℕ
minus n = 2 ^ 16 - n

abbrev pub rpc_error_code_not_found : ℕ
rpc_error_code_not_found = minus 32001

abbrev pub rpc_error_code_parse : ℕ
rpc_error_code_parse = minus 32700

abbrev pub rpc_error_code_invalid_request : ℕ
rpc_error_code_invalid_request = minus 32600

abbrev pub rpc_error_code_method_not_found : ℕ
rpc_error_code_method_not_found = minus 32601

abbrev pub rpc_error_code_invalid_method_params : ℕ
rpc_error_code_invalid_method_params = minus 32602

abbrev pub rpc_error_code_internal : ℕ
rpc_error_code_internal = minus 32603

pub record RpcError : Type 0 where
  pub code : ℕ
  pub «data» : Option Bytes

-- The errors that a handler makes
abbrev pub not_found : Option Bytes → RpcError
not_found e = record { code = rpc_error_code_not_found; «data» = e }

abbrev pub parse : Option Bytes → RpcError
parse e = record { code = rpc_error_code_parse; «data» = e }

abbrev pub invalid_request : Option Bytes → RpcError
invalid_request e = record { code = rpc_error_code_invalid_request; «data» = e }

abbrev pub method : Option Bytes → RpcError
method e = record { code = rpc_error_code_method_not_found; «data» = e }

abbrev pub params : Option Bytes → RpcError
params e = record { code = rpc_error_code_invalid_method_params; «data» = e }

abbrev pub internal : Option Bytes → RpcError
internal e = record { code = rpc_error_code_internal; «data» = e }

-- What a handler or a call gives.
pub data RpcResult {ℓ} (A : Type ℓ) : Type ℓ where
  succeeded : A → RpcResult A
  errored : RpcError → RpcResult A

-- `From<Error> for RpcError`
unfoldable pub rpc_error_from : Error → RpcError
unfolding error_code
rpc_error_from e = record { code = minus (32000 + error_code e.kind); «data» = none }

error_reply_of : RpcEventKind → RpcEvent → Option (Option RpcError)
error_reply_of error_reply ev = and_then (event_code ev) (λ code.
    and_then (event_payload ev) (λ p. some (some (record { code = code; «data» = some p }))))
error_reply_of _ ev = some none

-- `TryFrom<&RpcEvent> for RpcError`; an event of another kind is no error. The outer `none` is a
-- panic of an accessor.
unfoldable pub rpc_error_of : RpcEvent → Option (Option RpcError)
unfolding error_reply_of event_code event_payload
rpc_error_of ev = error_reply_of ev.kind ev
