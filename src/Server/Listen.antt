-- ===== src/Server/Listen.antt =====
-- The loop of `HMTLServer.listen` of python/hmtl/server.py over the requests of a connection.
use hmtl.Prelude.{ℕ, ◌≡◌, ◌⊎◌, List, [], ◌∷◌, ◌++◌, length, true}
use hmtl.Serial.{Value}
use hmtl.Server.{HmtlServer, Round, served, lost, hangs}
use hmtl.Server.Rounds.{is_data_req, Fits}

-- The replies answer the first of the requests, one each and in their order.
abbrev pub Answer : List (ℕ × Value) → List Value → Type 0
Answer requests [] = Unit
Answer [] (v ∷ vs) = ⊥
Answer ((start, request) ∷ more) (v ∷ vs) = Fits (is_data_req request) v × Answer more vs

-- All requests are answered unless the loop ended early.
abbrev pub IsComplete : List (ℕ × Value) → List Value → Round × HmtlServer → Type 0
IsComplete requests vs (served, s) = (s.terminate ≡ true) ⊎ (length vs ≡ length requests)
IsComplete requests vs (lost, s) = Unit
IsComplete requests vs (hangs, s) = Unit

abbrev pub IsServed : List (ℕ × Value) → HmtlServer → Round × HmtlServer → Type 0
IsServed requests s out =
    (vs : List Value) × (out.1.sent ≡ s.sent ++ vs)
    × Answer requests vs
    × IsComplete requests vs out
