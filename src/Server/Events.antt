-- ===== src/Server/Events.antt =====
-- server/stream.rs: the loop over the messages of a unidirectional event stream, with the handler's
-- trait and the entry points of server.rs. `Event` stands for what bincode decodes.
pub mod Laws
use review_protocol.Prelude.{
  String, Result, ok, err, List, [], ◌∷◌, ◌<>◌, if◌then◌else◌, map_err, and_then,
}
use review_protocol.ProtocolError.{IoError, io_error, error_kind, unexpected_eof, simple}
use review_protocol.Wire.{Bytes, RecvStream}
use review_protocol.Request.PackageReader.{is_eof}

-- What a method of the handler returns, with its new state.
abbrev pub Handled : Type 0 → Type 0
Handled H = Result (Unit {0}) IoError × H

-- `trait EventStreamHandler`
pub record EventStreamHandler (Event H : Type 0) : Type 0 where
  pub handle_event : Event → H → Handled H
  pub on_stream_end : H → Handled H
  pub on_error : String → H → Handled H

-- The default methods of the trait.
unfoldable pub default_on_stream_end : {H : Type 0} → H → Handled H
default_on_stream_end h = (ok tt, h)

unfoldable pub default_on_error : {H : Type 0} → String → H → Handled H
default_on_error error h = (ok tt, h)

-- `quinn::ReadExactError`; a failed read is given by the `io::Error` that quinn makes of it.
pub data ReadExactError : Type 0 where
  finished_early : ReadExactError
  read_error : IoError → ReadExactError

unfoldable pub from_read_exact_error_to_io_error : ReadExactError → IoError
from_read_exact_error_to_io_error finished_early = io_error unexpected_eof simple
from_read_exact_error_to_io_error (read_error e) = e

-- The stream: what `read_exact` of the two bytes of the header returns, and the receives to come.
pub record EventStream : Type 0 where
  pub header : Result (Unit {0}) ReadExactError
  pub frames : RecvStream

module _ {Event H : Type 0} (decode : Bytes → Result Event String)
    (handler : EventStreamHandler Event H) where
  -- The message in a frame: an event for the handler, or an error that it hears of.
  unfoldable pub deliver : Result Event String → H → Handled H
  deliver (ok msg) h = handler.handle_event msg h
  deliver (err e) h = handler.on_error ("decoding error: " <> e) h

  -- `?` behind a message: the loop goes on, or returns the error.
  unfoldable pub after_message : (H → Handled H) → Handled H → Handled H
  after_message more (ok u, h) = more h
  after_message more (err e, h) = (err e, h)

  -- The loop, by the receives to come; behind the last one the stream has ended.
  unfoldable pub process_messages : RecvStream → H → Handled H
  unfolding deliver after_message
  process_messages [] h = handler.on_stream_end h
  process_messages (ok frame ∷ rest) h =
      after_message (process_messages rest) (deliver (decode frame) h)
  process_messages (err e ∷ rest) h =
      if is_eof (error_kind e) then handler.on_stream_end h else (err e, h)

  -- Behind the header.
  unfoldable pub after_header : Result (Unit {0}) ReadExactError → RecvStream → H → Handled H
  unfolding process_messages from_read_exact_error_to_io_error
  after_header (ok u) frames h = process_messages frames h
  after_header (err e) frames h = (err (from_read_exact_error_to_io_error e), h)

  unfoldable pub process_event_stream : EventStream → H → Handled H
  unfolding after_header
  process_event_stream s h = after_header s.header s.frames h

  -- `Connection::handle_event_stream`
  unfoldable pub handle_event_stream : EventStream → H → Handled H
  unfolding process_event_stream
  handle_event_stream s h = process_event_stream s h

  -- `Connection::accept_event_stream`, on what `accept_uni` returns.
  unfoldable pub accept_event_stream : Result EventStream IoError → H → Handled H
  unfolding process_event_stream
  accept_event_stream (ok s) h = process_event_stream s h
  accept_event_stream (err e) h = (err e, h)
