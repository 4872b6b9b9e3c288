-- ===== src/Examples/Streams.antt =====
-- Event streams of numbers, with a handler that counts its events and adds a hundred at the end.
use review_protocol.Prelude.{ℕ, suc, String, ◌+◌, ◌≡◌, refl, Result, ok, err, [], ◌∷◌}
use review_protocol.Wire.{Bytes}
use review_protocol.Server.Events.{
  EventStreamHandler, default_on_error, deliver, after_message, process_event_stream,
}
use review_protocol.Server.Events.Laws.{
  Delivers, messages_are_delivered_in_order, receive_errors_bypass_the_handler,
}
use review_protocol.Examples.Samples.{bad_data}

abbrev decode : Bytes → Result ℕ String
decode [] = err "empty"
decode (n ∷ rest) = ok n

abbrev counter : EventStreamHandler ℕ ℕ
counter = record {
  handle_event = λ event h. (ok tt, suc h);
  on_stream_end = λ h. (ok tt, h + 100);
  on_error = default_on_error;
}

messages_are_delivered_in_order_example :
    Delivers decode counter ((5 ∷ []) ∷ [] ∷ (6 ∷ []) ∷ []) 0 (
      process_event_stream decode counter
        (record { header = ok tt; frames = ok (5 ∷ []) ∷ ok [] ∷ ok (6 ∷ []) ∷ [] })
        0)
messages_are_delivered_in_order_example =
    messages_are_delivered_in_order decode counter ((5 ∷ []) ∷ [] ∷ (6 ∷ []) ∷ []) 0

receive_errors_bypass_the_handler_example :
    process_event_stream decode counter
      (record { header = ok tt; frames = ok (5 ∷ []) ∷ err bad_data ∷ ok (6 ∷ []) ∷ [] })
      0
    ≡ (err bad_data, 1)
unfolding deliver after_message
receive_errors_bypass_the_handler_example =
    receive_errors_bypass_the_handler decode counter ((5 ∷ []) ∷ []) bad_data (ok (6 ∷ []) ∷ []) 0
      refl
