-- ===== src/Server/Connections.antt =====
-- `get_connection` and the loop of `listen` of `class HMTLServer` of python/hmtl/server.py, over all
-- the connections that the server is asked for. The listener is a parameter, as the list of what
-- its `accept()` comes to; a KeyboardInterrupt anywhere else leaves `listen`, and is left out.
pub mod Serving
pub mod Undecodable
use hmtl.Prelude.{
  ℕ, List, [], ◌∷◌, Bytes, Bool, true, false, if◌then◌else◌, Result, ok, err, Error, os_error,
}
use hmtl.Serial.{Value, nothing}
use hmtl.Server.{HmtlServer, Round, served, lost, hangs, listen_round, listen, recover}

-- What the listener's `accept()` comes to: a connection with what `recv()` returns there and when,
-- up to its EOFError; a KeyboardInterrupt; or any other exception, of a failed authentication too.
pub data Attempt : Type 0 where
  accepted : List (ℕ × Value) → Attempt
  interrupted : Attempt
  refused : Error → Attempt

-- How far `listen` is: it has returned, it has raised, a call waits within the polls at hand, or it
-- waits for the next connection.
pub data Run : Type 0 where
  closed : Run
  raised : Error → Run
  hanging : Run
  listening : Run

-- The run, and what was sent over each connection.
pub record Service : Type 0 where
  pub run : Run
  pub replies : List (List Value)
  pub server : HmtlServer

module _ (write transmit : Value → Result (Unit {0})) (utf8 : Bytes → Bool) where
  -- A round of the loop for what `conn.recv()` returns, or raises: `data` is None then.
  unfoldable pub recv_round : ℕ → Result Value → HmtlServer → Round × HmtlServer
  unfolding recover listen_round
  recv_round start (err e) s = recover write transmit utf8 nothing e s
  recv_round start (ok request) s = listen_round write transmit utf8 start request s

  -- No more comes in: the loop is left, or `conn.recv()` raises an EOFError.
  unfoldable pub at_end : Round × HmtlServer → Round × HmtlServer
  unfolding recover
  at_end (served, s) =
      if s.terminate then (served, s) else recover write transmit utf8 nothing os_error s
  at_end (lost, s) = (lost, s)
  at_end (hangs, s) = (hangs, s)

  -- The loop for one connection that `get_connection` has made.
  unfoldable pub connection : List (ℕ × Value) → HmtlServer → Round × HmtlServer
  unfolding at_end listen
  connection requests s =
      at_end (listen write transmit utf8 requests (record s { connected = true; sent = [] }))

  -- Behind a connection: the end of `listen`, or `get_connection` in the `except` block.
  unfoldable pub after_connection : Round × HmtlServer → (HmtlServer → Service) → Service
  after_connection (served, s) next = record { run = closed; replies = s.sent ∷ []; server = s }
  after_connection (lost, s) next =
      let rest = next s in record rest { replies = s.sent ∷ rest.replies }
  after_connection (hangs, s) next = record { run = hanging; replies = s.sent ∷ []; server = s }

  -- `get_connection`, then the loop of `listen`.
  unfoldable pub serve : List Attempt → HmtlServer → Service
  unfolding connection after_connection
  serve [] s = record { run = listening; replies = []; server = s }
  serve (interrupted ∷ more) s = record {
    run = closed;
    replies = [];
    server = record s { terminate = true };
  }
  serve (refused e ∷ more) s = record { run = raised e; replies = []; server = s }
  serve (accepted requests ∷ more) s = after_connection (connection requests s) (serve more)
