-- ===== src/Server/Events/Laws.antt =====
-- The event stream of server/stream.rs: which of the handler's methods are called, and in which order.
use review_protocol.Prelude.{
  ◌∙◌, String, false, ◌<>◌, ◌≡◌, refl, Result, ok, err, List, [], ◌∷◌, ◌++◌, map,
}
use review_protocol.ProtocolError.{IoError, error_kind}
use review_protocol.Wire.{Bytes, RecvStream}
use review_protocol.Request.PackageReader.{is_eof}
use review_protocol.Server.Events.{
  Handled, EventStreamHandler, deliver, after_message, process_messages, after_header,
  process_event_stream,
}

module _ {Event H : Type 0} (decode : Bytes → Result Event String)
    (handler : EventStreamHandler Event H) where
  -- The messages of frames, delivered one after the other until a method fails.
  abbrev pub deliver_all : List Bytes → H → Handled H
  deliver_all [] h = (ok tt, h)
  deliver_all (frame ∷ frames) h =
      after_message decode handler (deliver_all frames) (deliver decode handler (decode frame) h)

  then_assoc :
      (f g : H → Handled H) (x : Handled H)
      → after_message decode handler (λ h. after_message decode handler g (f h)) x
        ≡ after_message decode handler g (after_message decode handler f x)
  unfolding after_message
  then_assoc f g (ok u, h) = refl
  then_assoc f g (err e, h) = refl

  then_cong :
      (f g : H → Handled H) (x : Handled H)
      → ((h : H) → f h ≡ g h)
      → after_message decode handler f x ≡ after_message decode handler g x
  unfolding after_message
  then_cong f g (ok u, h) e = e h
  then_cong f g (err x, h) e = refl

  -- Behind the frames the stream goes on, unless a method failed.
  process-prefix :
      (frames : List Bytes) (rest : RecvStream) (h : H)
      → process_messages decode handler (map ok frames ++ rest) h
        ≡ after_message decode handler (process_messages decode handler rest) (deliver_all frames h)
  unfolding process_messages after_message
  process-prefix [] rest h = refl
  process-prefix (frame ∷ frames) rest h =
      let x = deliver decode handler (decode frame) h in
      then_cong (process_messages decode handler (map ok frames ++ rest))
        (λ v.
          after_message decode handler (process_messages decode handler rest)
            (deliver_all frames v))
        x (process-prefix frames rest)
      ∙ then_assoc (deliver_all frames) (process_messages decode handler rest) x

  -- What a stream that ends behind its frames does with the handler, in the handler's own methods:
  -- the frames to come, the handler's state, and the outcome.
  pub data Delivers : List Bytes → H → Handled H → Type 0 where
    the_end : (h : H) → Delivers [] h (handler.on_stream_end h)
    event :
        (frame : Bytes) (frames : List Bytes) (msg : Event) (h h' : H) (x : Handled H)
        → decode frame ≡ ok msg
        → handler.handle_event msg h ≡ (ok tt, h')
        → Delivers frames h' x
        → Delivers (frame ∷ frames) h x
    event_fails :
        (frame : Bytes) (frames : List Bytes) (msg : Event) (h h' : H) (e : IoError)
        → decode frame ≡ ok msg
        → handler.handle_event msg h ≡ (err e, h')
        → Delivers (frame ∷ frames) h (err e, h')
    undecodable :
        (frame : Bytes) (frames : List Bytes) (why : String) (h h' : H) (x : Handled H)
        → decode frame ≡ err why
        → handler.on_error ("decoding error: " <> why) h ≡ (ok tt, h')
        → Delivers frames h' x
        → Delivers (frame ∷ frames) h x
    undecodable_fails :
        (frame : Bytes) (frames : List Bytes) (why : String) (h h' : H) (e : IoError)
        → decode frame ≡ err why
        → handler.on_error ("decoding error: " <> why) h ≡ (err e, h')
        → Delivers (frame ∷ frames) h (err e, h')

  -- One message, by what decoding and the handler's method return.
  delivers-message :
      (frame : Bytes) (frames : List Bytes) (h : H) (more : H → Handled H)
      → ((v : H) → Delivers frames v (more v))
      → (msg : Result Event String) → decode frame ≡ msg
      → (x : Handled H) → deliver decode handler msg h ≡ x
      → Delivers (frame ∷ frames) h (after_message decode handler more x)
  unfolding deliver after_message
  delivers-message frame frames h more rest (ok msg) e (ok tt, h') called =
      event frame frames msg h h' (more h') e called (rest h')
  delivers-message frame frames h more rest (ok msg) e (err x, h') called =
      event_fails frame frames msg h h' x e called
  delivers-message frame frames h more rest (err why) e (ok tt, h') called =
      undecodable frame frames why h h' (more h') e called (rest h')
  delivers-message frame frames h more rest (err why) e (err x, h') called =
      undecodable_fails frame frames why h h' x e called

  process-Delivers :
      (frames : List Bytes) (h : H)
      → Delivers frames h (process_messages decode handler (map ok frames) h)
  unfolding process_messages
  process-Delivers [] h = the_end h
  process-Delivers (frame ∷ frames) h =
      delivers-message frame frames h (process_messages decode handler (map ok frames))
        (process-Delivers frames) (decode frame) refl _ refl

  -- On a stream that ends behind its frames, every frame is delivered once and in order: a message
  -- that decodes to `handle_event`, and one that does not to `on_error` with the text of the decoding
  -- error. The first of these calls that fails ends the run with its error, and no method is called
  -- behind it; if none fails, the end is told to the handler last, and its answer is the outcome.
  pub messages_are_delivered_in_order :
      (frames : List Bytes) (h : H)
      → Delivers frames h (
          process_event_stream decode handler (record { header = ok tt; frames = map ok frames }) h)
  unfolding process_event_stream after_header
  messages_are_delivered_in_order frames h = process-Delivers frames h

  -- A receive that fails behind some frames, other than by the end of the stream, is returned as it
  -- is: the handler has seen the frames before it, hears neither of the error nor of an end, and
  -- nothing behind it is received.
  pub receive_errors_bypass_the_handler :
      (frames : List Bytes) (e : IoError) (rest : RecvStream) (h : H)
      → is_eof (error_kind e) ≡ false
      → process_event_stream decode handler
          (record { header = ok tt; frames = map ok frames ++ err e ∷ rest })
          h
        ≡ after_message decode handler (λ h'. (err e, h')) (deliver_all frames h)
  unfolding process_event_stream after_header process_messages
  receive_errors_bypass_the_handler frames e rest h other =
      process-prefix frames (err e ∷ rest) h
      ∙ then_cong (process_messages decode handler (err e ∷ rest)) (λ h'. (err e, h'))
          (deliver_all frames h) (λ h'. rw (process_messages, other) refl)
