-- ===== src/Server/Connections/Serving.antt =====
-- What `HMTLServer.listen` of python/hmtl/server.py sends over its connections, and how it ends.
use hmtl.Prelude.{◌≡◌, ◌⊎◌, refl, ap, List, [], ◌∷◌, ◌++◌, Bytes, Bool, true, Result, ok, Error}
use hmtl.Serial.{Value}
use hmtl.Server.{HmtlServer, Round, served, lost, hangs, listen}
use hmtl.Server.Listen.{Answer, IsComplete}
use hmtl.Server.Connections.{
  Attempt, accepted, interrupted, refused, closed, raised, hanging, listening, Service, connection,
  after_connection, serve,
}

module _ (write transmit : Value → Result (Unit {0})) (utf8 : Bytes → Bool) where
  after_connection-refused :
      (e : Error) (next next' : HmtlServer → Service) (out : Round × HmtlServer)
      → ((s : HmtlServer) → (next s).run ≡ listening → next' s ≡ record (next s) { run = raised e })
      → (after_connection write transmit utf8 out next).run ≡ listening
      → after_connection write transmit utf8 out next'
        ≡ record (after_connection write transmit utf8 out next) { run = raised e }
  unfolding after_connection
  after_connection-refused e next next' (served, s) h l = cc
  after_connection-refused e next next' (lost, s) h l =
      ap (λ (r : Service). record r { replies = s.sent ∷ r.replies }) (h s l)
  after_connection-refused e next next' (hangs, s) h l = cc

  -- A server that has seen to its connections, and waits for the next one, is ended by whatever
  -- exception that one's `accept()` raises: it leaves `listen`, and no later connection is served.
  pub serve-refused :
      (attempts more : List Attempt) (e : Error) (s : HmtlServer)
      → (serve write transmit utf8 attempts s).run ≡ listening
      → serve write transmit utf8 (attempts ++ (refused e ∷ more)) s
        ≡ record (serve write transmit utf8 attempts s) { run = raised e }
  unfolding serve
  serve-refused [] more e s l = refl
  serve-refused (interrupted ∷ rest) more e s l = cc
  serve-refused (refused f ∷ rest) more e s l = cc
  serve-refused (accepted requests ∷ rest) more e s l =
      after_connection-refused e (serve write transmit utf8 rest)
        (serve write transmit utf8 (rest ++ (refused e ∷ more)))
        (connection write transmit utf8 requests s) (serve-refused rest more e) l

  module _ (delivers : (v : Value) → transmit v ≡ ok tt) where
    -- What a server that starts in `s` does for its attempts: without one more it waits for a
    -- connection; an interrupted one ends it, and a refused one with the exception; and over one
    -- that is accepted it sends all that the loop of `listen` sends there, which answers the requests
    -- one by one, and then it is closed by an exit, or waits in a call, or goes on to the attempts
    -- behind it.
    abbrev pub Serves : List Attempt → HmtlServer → Service → Type 0
    Serves [] s service = (service.run ≡ listening) × (service.replies ≡ [])
    Serves (interrupted ∷ more) s service =
        (service.run ≡ closed) × (service.replies ≡ []) × (service.server.terminate ≡ true)
    Serves (refused e ∷ more) s service = (service.run ≡ raised e) × (service.replies ≡ [])
    Serves (accepted requests ∷ more) s service =
        let out = listen write transmit utf8 requests (record s { connected = true; sent = [] }) in
        (vs : List Value) × (vss : List (List Value)) × (service.replies ≡ vs ∷ vss)
        × (out.1.sent ≡ vs)
        × Answer requests vs
        × IsComplete requests vs out
        × (((service.run ≡ closed) × (vss ≡ []) × (service.server.terminate ≡ true))
            ⊎ ((service.run ≡ hanging) × (vss ≡ []) × (out.0 ≡ hangs))
            ⊎ ((left : HmtlServer) × Serves more left (record service { replies = vss })))

    -- How `at_end` is left.
    AtEnd : Round × HmtlServer → Round × HmtlServer → Type 0
    AtEnd out (served, s) = s.terminate ≡ true
    AtEnd out (lost, s) = Unit
    AtEnd out (hangs, s) = out.0 ≡ hangs
