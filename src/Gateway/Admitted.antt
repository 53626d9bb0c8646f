-- ===== src/Gateway/Admitted.antt =====
-- The commands that the decoders let through.
use low_latency_exchange.Prelude.{ℕ, ◌<◌, none, some, List, ◌≡◌, refl, arith, Option}
use low_latency_exchange.Types.{Price}
use low_latency_exchange.Command.{NewOrder, CancelOrder, ReplaceOrder, validate}
use low_latency_exchange.Protocol.Codes.{decoded}
use low_latency_exchange.Protocol.Commands.{
  decode_new_order, decode_cancel_order, decode_replace_order,
}
use low_latency_exchange.Protocol.CommandTrip.{decode_new_order_valid, decode_new_order_price}
use low_latency_exchange.EventLog.Types.{monostate, new_order, cancel_order, replace_order}
use low_latency_exchange.Engine.Types.{InboundCommand}

-- A price, where there is one, is positive.
abbrev pub IsPositivePrice : Option Price → Type 0
IsPositivePrice none = Unit
IsPositivePrice (some price) = 0 < price

given-IsPositivePrice :
    (given : Option Price)
    → ((price : Price) → given ≡ some price → 0 < price)
    → IsPositivePrice given
given-IsPositivePrice none h = tt
given-IsPositivePrice (some price) h = h price refl

-- What the decoders let through.
abbrev pub IsAdmitted : InboundCommand → Type 0
IsAdmitted monostate = ⊥
IsAdmitted (new_order order) =
    (0 < order.sequence)
    × (0 < order.order_id)
    × (0 < order.quantity)
    × IsPositivePrice order.limit_price
    × (validate order ≡ none)
IsAdmitted (cancel_order order) = (0 < order.sequence) × (0 < order.order_id)
IsAdmitted (replace_order order) =
    (0 < order.sequence) × (0 < order.order_id) × (0 < order.new_quantity) × (0 < order.new_price)

pub decode_new_order-IsAdmitted :
    (bytes : List ℕ) (order : NewOrder)
    → decode_new_order bytes ≡ decoded order
    → IsAdmitted (new_order order)
decode_new_order-IsAdmitted bytes order e =
    let (sequence, id, quantity, valid) = decode_new_order_valid bytes order e in
    (
      sequence,
      id,
      quantity,
      given-IsPositivePrice order.limit_price (decode_new_order_price bytes order e),
      valid,
    )

pub decode_cancel_order_valid :
    (bytes : List ℕ) (order : CancelOrder)
    → decode_cancel_order bytes ≡ decoded order
    → IsAdmitted (cancel_order order)
unfolding decode_cancel_order
decode_cancel_order_valid bytes order e = ground (arith, e)

pub decode_replace_order_valid :
    (bytes : List ℕ) (order : ReplaceOrder)
    → decode_replace_order bytes ≡ decoded order
    → IsAdmitted (replace_order order)
unfolding decode_replace_order
decode_replace_order_valid bytes order e = ground (arith, e)
