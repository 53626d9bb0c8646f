-- ===== src/Gateway/Writing.antt =====
-- What a session writes: its frames in order, and after an error no more.
use low_latency_exchange.Prelude.{
  ℕ, suc, ◌<◌, ◌^◌, true, false, List, [], ◌∷◌, ◌++◌, ◌≡◌, refl, sym, ◌∙◌, subst, arith, length,
  length-append, replicate, append_assoc,
}
use low_latency_exchange.Protocol.ErrorCodes.{ErrorCode}
use low_latency_exchange.Gateway.Serialize.{make_error_frame}
use low_latency_exchange.Gateway.Frames.{
  IsFrameOf, error_message, make_error_frame_lem, serialize_outbound_lem,
}
use low_latency_exchange.Gateway.Session.{
  TcpSession, is_empty, send_raw_frame, send_protocol_error, on_write, write_done, on_event,
  run_session,
}

-- How a session that is to close ends, once its frames are written.
pub record Finished (s s' : TcpSession) (frames : List (List ℕ)) : Type 0 where
  pub delivered : s'.sent ≡ s.sent ++ frames
  pub emptied : s'.write_queue ≡ []
  pub is_shut : s'.is_open ≡ false
  pub is_gone : s'.is_registered ≡ false
  pub quiet : s'.reading ≡ s.reading

-- The session whose frame is written.
abbrev written : List ℕ → List (List ℕ) → TcpSession → TcpSession
written frame rest s = record s { write_queue = rest; sent = s.sent ++ frame ∷ [] }

on_write_next :
    (frame next : List ℕ) (rest : List (List ℕ)) (s : TcpSession)
    → s.write_queue ≡ frame ∷ next ∷ rest
    → on_write false s ≡ written frame (next ∷ rest) s
unfolding on_write
on_write_next frame next rest s e = rw (e, on_write) refl

drain_from :
    (frame : List ℕ) (rest : List (List ℕ)) (s : TcpSession)
    → s.write_queue ≡ frame ∷ rest
    → s.close_after_write ≡ true
    → Finished s
        (run_session (replicate (length (frame ∷ rest)) (write_done false)) s)
        (frame ∷ rest)
unfolding run_session on_event on_write
drain_from frame [] s e c =
    rw (e, c, on_write)
      (record { delivered = refl; emptied = refl; is_shut = refl; is_gone = refl; quiet = refl })
drain_from frame (next ∷ rest) s e c =
    let f = drain_from next rest (written frame (next ∷ rest) s) refl c in
    subst
      (λ s'.
        Finished s (run_session (replicate (length (next ∷ rest)) (write_done false)) s')
          (frame ∷ next ∷ rest))
      (sym (on_write_next frame next rest s e))
      (record {
        delivered = f.delivered ∙ append_assoc s.sent (frame ∷ []) (next ∷ rest);
        emptied = f.emptied;
        is_shut = f.is_shut;
        is_gone = f.is_gone;
        quiet = f.quiet;
      })

make_error_frame-IsFrameOf :
    (code : ErrorCode) (offending_type : ℕ)
    → code < 2 ^ 16
    → IsFrameOf (error_message code offending_type) (make_error_frame code offending_type)
make_error_frame-IsFrameOf code offending_type fits =
    subst (IsFrameOf (error_message code offending_type))
      (sym (make_error_frame_lem code offending_type))
      (serialize_outbound_lem (error_message code offending_type) (fits, refl, omega arith))

not_empty : (frame : List ℕ) → 0 < length frame → is_empty frame ≡ false
not_empty [] h = absurd (omega (arith, h))
not_empty (x ∷ xs) h = refl

-- A protocol error on an open session puts its frame behind those that wait, and the session is to close.
send_protocol_error-open :
    (code : ErrorCode) (offending_type : ℕ) (s : TcpSession)
    → code < 2 ^ 16
    → s.is_open ≡ true
    → send_protocol_error code offending_type s ≡ record s {
      close_after_write = true;
      write_queue = s.write_queue ++ make_error_frame code offending_type ∷ [];
    }
unfolding send_protocol_error send_raw_frame
send_protocol_error-open code offending_type s fits opened =
    let some_bytes : is_empty (make_error_frame code offending_type) ≡ false =
      not_empty (make_error_frame code offending_type)
        (omega (arith, (make_error_frame-IsFrameOf code offending_type fits).0)) in
    rw (some_bytes, opened) refl

-- The writes of all the frames that wait.
drain :
    (frames : List (List ℕ)) (last : List ℕ) (s : TcpSession)
    → s.write_queue ≡ frames ++ last ∷ []
    → s.close_after_write ≡ true
    → Finished s
        (run_session (replicate (suc (length frames)) (write_done false)) s)
        (frames ++ last ∷ [])
drain [] last s e c = drain_from last [] s e c
drain (frame ∷ frames) last s e c =
    let size : length (frames ++ last ∷ []) ≡ suc (length frames) =
      length-append frames (last ∷ []) ∙ omega arith in
    subst
      (λ (n : ℕ).
        Finished s (run_session (replicate (suc n) (write_done false)) s)
          (frame ∷ (frames ++ last ∷ [])))
      size (drain_from frame (frames ++ last ∷ []) s e c)

-- After a protocol error on an open session, once the writes of the frames that wait and of its own are done,
-- the client has been sent all of them and then the error, in a frame that it can read, and the
-- session is closed and no longer registered. Nothing is read meanwhile that was not being read.
pub send_protocol_error-Finished :
    (code : ErrorCode) (offending_type : ℕ) (s : TcpSession)
    → code < 2 ^ 16
    → s.is_open ≡ true
    → Finished s
        (run_session
          (replicate (suc (length s.write_queue)) (write_done false))
          (send_protocol_error code offending_type s))
        (s.write_queue ++ make_error_frame code offending_type ∷ [])
      × IsFrameOf (error_message code offending_type) (make_error_frame code offending_type)
send_protocol_error-Finished code offending_type s fits opened =
    let frame = make_error_frame code offending_type in
    let s' : TcpSession = record s {
      close_after_write = true;
      write_queue = s.write_queue ++ frame ∷ [];
    } in
    let d = drain s.write_queue frame s' refl refl in
    (
      subst
          (λ s''.
            Finished s (run_session (replicate (suc (length s.write_queue)) (write_done false)) s'')
              (s.write_queue ++ frame ∷ []))
          (sym (send_protocol_error-open code offending_type s fits opened))
          (record {
            delivered = d.delivered;
            emptied = d.emptied;
            is_shut = d.is_shut;
            is_gone = d.is_gone;
            quiet = d.quiet;
          }),
      make_error_frame-IsFrameOf code offending_type fits,
    )
