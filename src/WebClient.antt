-- ===== src/WebClient.antt =====
-- The form of python/HMTLWebClient.py: what a POST does to the triggers and sends to the modules. The
-- pages, the command line and the web server are left out; the two regular expressions and the
-- client's `send_and_ack` are parameters.
pub mod Posts
use hmtl.Prelude.{
  ℕ, List, [], ◌∷◌, ◌++◌, Bytes, Option, none, some, ◌==◌, if◌then◌else◌, Result, ok, err, Error,
}
use Prim.Native.String.{String}
use hmtl.Protocol.Constants.{broadcast}
use hmtl.Protocol.Messages.{get_value_msg}

-- `trig_state`, in the order of the dict; and what was passed to `send_and_ack`.
pub record WebClient : Type 0 where
  pub trig_state : List (ℕ × ℕ)
  pub sent : List Bytes

abbrev pub new_client : WebClient
new_client = record { trig_state = (0, 0) ∷ (1, 0) ∷ (2, 0) ∷ (3, 0) ∷ []; sent = [] }

-- `trig_state[trig] = val`
unfoldable pub set_trigger : ℕ → ℕ → List (ℕ × ℕ) → List (ℕ × ℕ)
set_trigger trig val [] = (trig, val) ∷ []
set_trigger trig val ((t, v) ∷ ts) =
    let rest = set_trigger trig val ts in if t == trig then (t, val) ∷ ts else (t, v) ∷ rest

-- `search_trig` and `search_value` are `int(m.group(1))` of the first match, if there is one.
module _ (search_trig search_value : String → Option ℕ)
    (send_and_ack : Bytes → Result (Unit {0})) where
  both : Option ℕ → Option ℕ → Option (ℕ × ℕ)
  both (some trig) (some val) = some (trig, val)
  both _ _ = none

  -- `get_trig_value`, with `(None, None)` as `none`.
  unfoldable pub get_trig_value : String → Option (ℕ × ℕ)
  unfolding both
  get_trig_value str_data = both (search_trig str_data) (search_value str_data)

  -- The message, and then `client.send_and_ack(msg)`.
  unfoldable pub send_msg : Result Bytes → WebClient → Result (Unit {0}) × WebClient
  send_msg (err e) c = (err e, c)
  send_msg (ok msg) c = (send_and_ack msg, record c { sent = c.sent ++ (msg ∷ []) })

  -- `send_update`
  unfoldable pub send_update : ℕ → ℕ → WebClient → Result (Unit {0}) × WebClient
  unfolding send_msg set_trigger
  send_update trig val c =
      send_msg (get_value_msg broadcast trig val)
        (record c { trig_state = set_trigger trig val c.trig_state })

  post_found : Option (ℕ × ℕ) → WebClient → Result (Unit {0}) × WebClient
  unfolding send_update
  post_found none c = (ok tt, c)
  post_found (some (trig, val)) c = send_update trig val c

  -- `handle_post`, for data that is decoded.
  unfoldable pub handle_post : String → WebClient → Result (Unit {0}) × WebClient
  unfolding post_found get_trig_value
  handle_post str_data c = post_found (get_trig_value str_data) c
