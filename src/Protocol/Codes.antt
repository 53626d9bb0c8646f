-- ===== src/Protocol/Codes.antt =====
-- include/low_latency_exchange/protocol.hpp: the enums, the payload sizes, and the records. An enum
-- over a fixed integer type can hold each value of that type, named or not, so it is that integer.
use low_latency_exchange.Prelude.{ℕ, Bool, Option, none, some, ◌==◌, ◌&&◌, leb, if◌then◌else◌}
use Prim.Native.Nat.{bit_and}
use low_latency_exchange.Protocol.MessageTypes
use low_latency_exchange.Protocol.ErrorCodes
use low_latency_exchange.Protocol.MessageTypes.{MessageType}
use low_latency_exchange.Protocol.ErrorCodes.{ErrorCode}
use low_latency_exchange.Types.{Price, Quantity, OrderId, SequenceNumber}
use low_latency_exchange.Book.State.{OrderRejectReason, CancelRejectReason, ReplaceRejectReason}

abbrev pub expected_payload_length : MessageType → Option ℕ
expected_payload_length type =
    if type == MessageTypes.new_order
    then some 40
    else if type == MessageTypes.cancel_order
    then some 16
    else if type == MessageTypes.replace_order
    then some 32
    else if type == MessageTypes.order_accepted
    then some 24
    else if type == MessageTypes.order_rejected
    then some 24
    else if type == MessageTypes.execution
    then some 40
    else if type == MessageTypes.cancel_accepted
    then some 24
    else if type == MessageTypes.cancel_rejected
    then some 24
    else if type == MessageTypes.replace_accepted
    then some 24
    else if type == MessageTypes.replace_rejected
    then some 24
    else if type == MessageTypes.protocol_error
    then some 8
    else none

abbrev pub is_inbound : MessageType → Bool
is_inbound type = leb 1 type && leb type 15

abbrev pub is_outbound : MessageType → Bool
is_outbound type = leb 16 type && leb type 31

-- `(flags & 0xFFFE) == 0`
unfoldable pub flags_reserved_bits_clear : ℕ → Bool
flags_reserved_bits_clear flags = bit_and flags 65534 == 0

pub record WireHeader : Type 0 where
  pub magic : ℕ
  pub version : ℕ
  pub type : MessageType
  pub flags : ℕ
  pub payload_length : ℕ

pub record OrderAcceptedEvent : Type 0 where
  pub sequence : SequenceNumber
  pub order_id : OrderId
  pub remaining_quantity : ℕ

pub record OrderRejectedEvent : Type 0 where
  pub sequence : SequenceNumber
  pub order_id : OrderId
  pub error_code : ErrorCode

pub record ExecutionEvent : Type 0 where
  pub sequence : SequenceNumber
  pub resting_order_id : OrderId
  pub incoming_order_id : OrderId
  pub price : Price
  pub quantity : Quantity

pub record CancelAcceptedEvent : Type 0 where
  pub sequence : SequenceNumber
  pub order_id : OrderId
  pub cancelled_quantity : Quantity

pub record ProtocolErrorEvent : Type 0 where
  pub error_code : ErrorCode
  pub offending_type : ℕ

pub reject_error_code : OrderRejectReason → ErrorCode
reject_error_code OrderRejectReason.invalid_order = ErrorCodes.invalid_order
reject_error_code OrderRejectReason.market_orders_not_supported = ErrorCodes.invalid_order
reject_error_code OrderRejectReason.duplicate_order_id = ErrorCodes.duplicate_order_id

pub cancel_error_code : CancelRejectReason → ErrorCode
cancel_error_code _ = ErrorCodes.order_not_found

pub replace_error_code : ReplaceRejectReason → ErrorCode
replace_error_code _ = ErrorCodes.order_not_found

-- The error that a decoder returns, or the value that it writes through `out`.
pub data Decoded {ℓ} (A : Type ℓ) : Type ℓ where
  failed : ErrorCode → Decoded A
  decoded : A → Decoded A

-- A value that a factory has refused is an invalid field.
abbrev pub or_invalid {ℓ} : {A : Type ℓ} → Option A → Decoded A
or_invalid none = failed ErrorCodes.invalid_field
or_invalid (some a) = decoded a
