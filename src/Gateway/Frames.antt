-- ===== src/Gateway/Frames.antt =====
-- The frames that the gateway writes are valid, and a client reads the events back.
use low_latency_exchange.Prelude.{
  ℕ, zero, suc, ◌+◌, ◌≤◌, ◌<◌, ◌^◌, true, none, some, List, [], ◌∷◌, ◌≡◌, refl, sym, ap, ◌∙◌, subst,
  arith, length, get_or, drop, replicate, length-replicate, length-drop, u64_mod,
}
use low_latency_exchange.Types.{IsWord, IsPrice}
use low_latency_exchange.Protocol.ErrorCodes.{ErrorCode}
use low_latency_exchange.Protocol.MessageTypes
use low_latency_exchange.Protocol.MessageTypes.{MessageType}
use low_latency_exchange.Protocol.Codes.{
  decoded, expected_payload_length, flags_reserved_bits_clear,
}
use low_latency_exchange.Protocol.Events.{
  decode_order_accepted, decode_order_rejected, decode_execution, decode_cancel_accepted,
  decode_protocol_error,
}
use low_latency_exchange.Protocol.EventTrip.{
  roundtrip_order_accepted, roundtrip_order_rejected, roundtrip_execution,
  roundtrip_cancel_accepted, roundtrip_protocol_error,
}
use low_latency_exchange.Protocol.Header.{validate_header, decode_header, encode_frame}
use low_latency_exchange.Protocol.HeaderTrip.{
  validate_header_accepts, frame_header, encode_frame_lem,
}
use low_latency_exchange.Engine.Types.{
  OutboundPayload, no_payload, accepted_event, rejected_event, execution_event, cancelled_event,
  error_event, OutboundMessage,
}
use low_latency_exchange.Gateway.Serialize.{
  payload_size_of, encode_payload, serialize_outbound, make_error_frame,
}

-- The fields of an event are in range.
abbrev pub IsFitting : OutboundPayload → Type 0
IsFitting no_payload = ⊥
IsFitting (accepted_event e) =
    IsWord e.sequence × IsWord e.order_id × (e.remaining_quantity < u64_mod)
IsFitting (rejected_event e) = IsWord e.sequence × IsWord e.order_id × (e.error_code < 2 ^ 16)
IsFitting (execution_event e) =
    IsWord e.sequence
    × IsWord e.resting_order_id
    × IsWord e.incoming_order_id
    × IsPrice e.price
    × IsWord e.quantity
IsFitting (cancelled_event e) = IsWord e.sequence × IsWord e.order_id × IsWord e.cancelled_quantity
IsFitting (error_event e) = e.error_code < 2 ^ 16

-- A client that decodes the bytes gets the event.
abbrev pub IsReadAs : OutboundPayload → List ℕ → Type 0
IsReadAs no_payload bytes = ⊥
IsReadAs (accepted_event e) bytes = decode_order_accepted bytes ≡ decoded e
IsReadAs (rejected_event e) bytes = decode_order_rejected bytes ≡ decoded e
IsReadAs (execution_event e) bytes = decode_execution bytes ≡ decoded e
IsReadAs (cancelled_event e) bytes = decode_cancel_accepted bytes ≡ decoded e
IsReadAs (error_event e) bytes = decode_protocol_error bytes ≡ decoded e

-- A payload that is read has its size.
IsReadAs-length :
    (payload : OutboundPayload) (bytes : List ℕ)
    → IsReadAs payload bytes
    → length bytes ≡ payload_size_of payload
unfolding decode_order_accepted decode_order_rejected decode_execution decode_cancel_accepted
    decode_protocol_error
IsReadAs-length no_payload bytes e = absurd e
IsReadAs-length (accepted_event a) bytes e = ground (arith, e)
IsReadAs-length (rejected_event a) bytes e = ground (arith, e)
IsReadAs-length (execution_event a) bytes e = ground (arith, e)
IsReadAs-length (cancelled_event a) bytes e = ground (arith, e)
IsReadAs-length (error_event a) bytes e = ground (arith, e)

encode_payload_lem :
    (payload : OutboundPayload)
    → IsFitting payload
    → (bytes : List ℕ) × (encode_payload payload ≡ some bytes) × IsReadAs payload bytes
unfolding encode_payload
encode_payload_lem no_payload fit = absurd fit
encode_payload_lem (accepted_event e) fit =
    roundtrip_order_accepted e (replicate 24 0) refl fit.0 fit.1 fit.2
encode_payload_lem (rejected_event e) fit =
    roundtrip_order_rejected e (replicate 24 0) refl fit.0 fit.1 fit.2
encode_payload_lem (execution_event e) fit =
    roundtrip_execution e (replicate 40 0) refl fit.0 fit.1 fit.2 fit.3 fit.4
encode_payload_lem (cancelled_event e) fit =
    roundtrip_cancel_accepted e (replicate 24 0) refl fit.0 fit.1 fit.2
encode_payload_lem (error_event e) fit = roundtrip_protocol_error e (replicate 8 0) refl fit

-- Lists with the same entries are the same.
same_entries :
    (xs ys : List ℕ)
    → length xs ≡ length ys
    → ((i : ℕ) → i < length ys → get_or xs i 0 ≡ get_or ys i 0)
    → xs ≡ ys
same_entries [] [] size same = refl
same_entries [] (y ∷ ys) size same = absurd (omega (arith, size))
same_entries (x ∷ xs) [] size same = absurd (omega (arith, size))
same_entries (x ∷ xs) (y ∷ ys) size same =
    let e = same 0 (omega arith) in
    let rest =
      same_entries xs ys (omega (arith, size)) (λ i lt. same (suc i) (omega (arith, lt))) in
    rw (e, rest) refl

get_or-drop : (n i : ℕ) (xs : List ℕ) → get_or (drop n xs) i 0 ≡ get_or xs (n + i) 0
get_or-drop zero i xs = ap (λ (k : ℕ). get_or xs k 0) {y = 0 + i} (omega arith)
get_or-drop (suc n) i [] = refl
get_or-drop (suc n) i (x ∷ xs) =
    get_or-drop n i xs
    ∙ ap (λ (k : ℕ). get_or (x ∷ xs) k 0) {x = suc (n + i)} {y = suc n + i} (omega arith)

-- What the type of a message says of its payload.
abbrev pub IsSendable : OutboundMessage → Type 0
IsSendable msg =
    IsFitting msg.payload
    × (expected_payload_length msg.type ≡ some (payload_size_of msg.payload))
    × (msg.flags < 2)

clear_flags : (flags : ℕ) → flags < 2 → flags_reserved_bits_clear flags ≡ true
unfolding flags_reserved_bits_clear
clear_flags zero h = refl
clear_flags (suc zero) h = refl
clear_flags (suc (suc n)) h = absurd (omega (arith, h))

payload_size_of_small : (payload : OutboundPayload) → payload_size_of payload ≤ 40
payload_size_of_small no_payload = omega arith
payload_size_of_small (accepted_event e) = omega arith
payload_size_of_small (rejected_event e) = omega arith
payload_size_of_small (execution_event e) = omega arith
payload_size_of_small (cancelled_event e) = omega arith
payload_size_of_small (error_event e) = omega arith

serialize_outbound-some :
    (msg : OutboundMessage) (payload frame : List ℕ)
    → encode_payload msg.payload ≡ some payload
    → encode_frame msg.type payload (replicate (8 + payload_size_of msg.payload) 0) msg.flags
      ≡ some frame
    → serialize_outbound msg ≡ frame
unfolding serialize_outbound
serialize_outbound-some msg payload frame e f = rw (e, f, serialize_outbound) refl

-- What a client finds in a frame.
abbrev pub IsFrameOf : OutboundMessage → List ℕ → Type 0
IsFrameOf msg frame =
    (length frame ≡ 8 + payload_size_of msg.payload)
    × (decode_header frame ≡ some (frame_header msg.type msg.flags (payload_size_of msg.payload)))
    × (validate_header (frame_header msg.type msg.flags (payload_size_of msg.payload)) ≡ none)
    × IsReadAs msg.payload (drop 8 frame)

-- The frame of a message whose type fits its payload, whose flags are 0 or 1 and whose fields are in range
-- has a header that is accepted and says the type and the flags, and after its 8 bytes a payload that
-- a client decodes to the event of the message.
pub serialize_outbound_lem :
    (msg : OutboundMessage) → IsSendable msg → IsFrameOf msg (serialize_outbound msg)
serialize_outbound_lem msg (fit, expected, narrow) =
    let (payload, e, read) = encode_payload_lem msg.payload fit in
    let size : length payload ≡ payload_size_of msg.payload =
      IsReadAs-length msg.payload payload read in
    let small = payload_size_of_small msg.payload in
    let out : List ℕ = replicate (8 + payload_size_of msg.payload) 0 in
    let room : length out ≡ 8 + payload_size_of msg.payload =
      length-replicate (8 + payload_size_of msg.payload) 0 in
    let (frame, f, len, header, body) =
      encode_frame_lem msg.type payload out msg.flags (omega (arith, size, room))
        (omega (arith, size, small)) (omega (arith, narrow)) in
    let whole : length frame ≡ 8 + payload_size_of msg.payload = len ∙ room in
    let rest : drop 8 frame ≡ payload =
      same_entries (drop 8 frame) payload
        (omega (arith, whole, size, length-drop 8 frame (omega (arith, whole))))
        (λ i lt. get_or-drop 8 i frame ∙ body i lt) in
    subst (IsFrameOf msg) (sym (serialize_outbound-some msg payload frame e f)) (
      whole,
      header ∙ ap (λ (n : ℕ). some (frame_header msg.type msg.flags n)) size,
      (validate_header_accepts (frame_header msg.type msg.flags (payload_size_of msg.payload))).1
          (refl, refl, clear_flags msg.flags narrow, expected),
      subst (IsReadAs msg.payload) (sym rest) read,
    )

-- The message that stands for a protocol error.
abbrev pub error_message : ErrorCode → ℕ → OutboundMessage
error_message code offending_type = record {
  session_id = 0;
  type = MessageTypes.protocol_error;
  flags = 0;
  payload = error_event (record { error_code = code; offending_type = offending_type });
}

-- The frame of a protocol error is that of its message.
pub make_error_frame_lem :
    (code : ErrorCode) (offending_type : ℕ)
    → make_error_frame code offending_type ≡ serialize_outbound (error_message code offending_type)
unfolding make_error_frame serialize_outbound encode_payload
make_error_frame_lem code offending_type = refl
