-- ===== src/Protocol/MessageTypes.antt =====
-- include/low_latency_exchange/protocol.hpp: `MessageType`, an enum over a byte.
use low_latency_exchange.Prelude.{ℕ}

abbrev pub MessageType : Type 0
MessageType = ℕ

abbrev pub new_order : MessageType
new_order = 1

abbrev pub cancel_order : MessageType
cancel_order = 2

abbrev pub replace_order : MessageType
replace_order = 3

abbrev pub order_accepted : MessageType
order_accepted = 16

abbrev pub order_rejected : MessageType
order_rejected = 17

abbrev pub execution : MessageType
execution = 18

abbrev pub cancel_accepted : MessageType
cancel_accepted = 19

abbrev pub cancel_rejected : MessageType
cancel_rejected = 20

abbrev pub replace_accepted : MessageType
replace_accepted = 21

abbrev pub replace_rejected : MessageType
replace_rejected = 22

abbrev pub protocol_error : MessageType
protocol_error = 23
