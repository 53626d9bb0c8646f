-- ===== src/Command.antt =====
-- include/low_latency_exchange/order_command.hpp.
use low_latency_exchange.Prelude.{Option, none, some}
use low_latency_exchange.Types.{
  Price, Quantity, OrderId, SequenceNumber, Side, OrderType, limit, market,
}

pub record NewOrder : Type 0 where
  pub sequence : SequenceNumber
  pub order_id : OrderId
  pub side : Side
  pub type : OrderType
  pub quantity : Quantity
  pub limit_price : Option Price

pub data NewOrderValidationError : Type 0 where
  limit_order_missing_price market_order_has_price : NewOrderValidationError

abbrev pub check_price : OrderType → Option Price → Option NewOrderValidationError
check_price limit none = some limit_order_missing_price
check_price limit (some p) = none
check_price market none = none
check_price market (some p) = some market_order_has_price

unfoldable pub validate : NewOrder → Option NewOrderValidationError
validate order = check_price order.type order.limit_price

pub record CancelOrder : Type 0 where
  pub sequence : SequenceNumber
  pub order_id : OrderId

pub record ReplaceOrder : Type 0 where
  pub sequence : SequenceNumber
  pub order_id : OrderId
  pub new_quantity : Quantity
  pub new_price : Price
