-- ===== src/Protocol/ErrorCodes.antt =====
-- include/low_latency_exchange/protocol.hpp: `ErrorCode`, an enum over 16 bits.
use low_latency_exchange.Prelude.{ℕ}

abbrev pub ErrorCode : Type 0
ErrorCode = ℕ

abbrev pub malformed_frame : ErrorCode
malformed_frame = 1

abbrev pub unsupported_version : ErrorCode
unsupported_version = 2

abbrev pub unknown_message_type : ErrorCode
unknown_message_type = 3

abbrev pub payload_length_invalid : ErrorCode
payload_length_invalid = 4

abbrev pub payload_too_large : ErrorCode
payload_too_large = 5

abbrev pub invalid_field : ErrorCode
invalid_field = 6

abbrev pub limit_order_missing_price : ErrorCode
limit_order_missing_price = 7

abbrev pub market_order_has_price : ErrorCode
market_order_has_price = 8

abbrev pub invalid_order : ErrorCode
invalid_order = 100

abbrev pub duplicate_order_id : ErrorCode
duplicate_order_id = 101

abbrev pub order_not_found : ErrorCode
order_not_found = 102

abbrev pub session_overloaded : ErrorCode
session_overloaded = 200

abbrev pub sequence_out_of_order : ErrorCode
sequence_out_of_order = 201
