-- ===== src/WebClient/Posts.antt =====
-- A POST to the form of python/HMTLWebClient.py.
use hmtl.Prelude.{ℕ, ◌≡◌, ◌∙◌, ◌≤◌, refl, Bytes, Option, some, Result, err, Error, arith}
use Prim.Native.String.{String}
use hmtl.Protocol.Constants.{broadcast}
use hmtl.Protocol.Messages.{get_value_msg}
use hmtl.Protocol.Layout.{get_value_msg_lem}
use hmtl.WebClient.{WebClient, set_trigger, get_trig_value, handle_post, send_update, send_msg}

module _ (search_trig search_value : String → Option ℕ)
    (send_and_ack : Bytes → Result (Unit {0})) where
  -- A value that a message cannot carry is recorded as the trigger's, and is not sent.
  pub handle_post_too_large :
      (data_str : String) (trig val : ℕ) (c : WebClient)
      → search_trig data_str ≡ some trig
      → search_value data_str ≡ some val
      → 0x1_0000 ≤ val
      → handle_post search_trig search_value send_and_ack data_str c
        ≡ (err Error.struct_error, record c { trig_state = set_trigger trig val c.trig_state })
  unfolding handle_post get_trig_value send_update send_msg
  handle_post_too_large data_str trig val c t v large =
      let refused : get_value_msg broadcast trig val ≡ err Error.struct_error =
        get_value_msg_lem broadcast trig val ∙ ground arith in
      rw (t, v, refused) refl
