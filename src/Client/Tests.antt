-- ===== src/Client/Tests.antt =====
-- Examples for Client and Server.
use hmtl.Prelude.{
  ℕ, ◌*◌, ◌≡◌, ◌≢◌, ◌⊎◌, refl, List, [], ◌∷◌, Bytes, none, some, Bool, true, false, Result, ok, err,
  Error, arith,
}
use hmtl.InputBuffer.{InputItem, new_item}
use hmtl.Protocol.MsgHdr
use hmtl.Protocol.MsgHdr.{MsgHdr}
use hmtl.Protocol.Frame.{poll, build}
use hmtl.Struct
use hmtl.Replies.{ReplyHdr, PollHdr, poll_fmt, poll_reply, msg_to_headers}
use hmtl.Replies.RoundTrip.{poll_fields}
use hmtl.Serial.{Value, bytes, str, nothing, Poll, config_ack, confirm_check}
use hmtl.Server.{HmtlServer, returned, served, listen_round, is_os_error, data_check, send_data}
use hmtl.Server.Scanner.{HmtlModule, new_module, DeviceScanner, find, on_answer, scan, poll_address}
use hmtl.Server.Scanner.Devices.{IsKept, scan-IsKept, on_answer-poll}
use hmtl.Client.{send_and_ack, get_response_data, response_loop, no_responses}
use hmtl.Client.Session.{NothingUnread, send_and_ack-NothingUnread}
use hmtl.Client.Progress.{response_loop-Finishes}
use hmtl.Client.Exchange.{send_and_ack-response}
use hmtl.Client.Interleaving.{get_response_data-poll_address}
use hmtl.Client.Undecoded.{get_response_data-undecoded}
use hmtl.Server.Connections.{Attempt, accepted, recv_round}
use hmtl.Server.Connections.Undecodable.{recv_round-undecodable}

-- Stand-ins for the port, the connection and the text test.
abbrev writes : Value → Result (Unit {0})
writes v = ok tt

abbrev no_text : Bytes → Bool
no_text bs = false

abbrev clock : ℕ → ℕ
clock k = 100 * k

abbrev arrival : InputItem → ℕ → Poll
arrival i now = record { got = some i; received_at = now; checked_at = now }

abbrev silence : ℕ → Poll
silence now = record { got = none; received_at = now; checked_at = now }

abbrev ok_line : InputItem
ok_line = record { bytes = config_ack; timestamp = 0; is_hmtl = false; hdr = none }

abbrev poll_bytes : Bytes
poll_bytes =
    0xFC ∷ 0 ∷ 2 ∷ 23 ∷ 2 ∷ 2 ∷ 0 ∷ 0 ∷ 0x5C ∷ 3 ∷ 1 ∷ 48 ∷ 4 ∷ 0 ∷ 1 ∷ 0 ∷ 7 ∷ 0 ∷ 2 ∷ 0 ∷ 64 ∷ 0
    ∷ 2 ∷ []

abbrev message : Bytes → InputItem
message bs = record { bytes = bs; timestamp = 0; is_hmtl = true; hdr = none }

abbrev poll_hdr : PollHdr
poll_hdr = record {
  config = record {
    magic = 0x5C;
    protocol_version = 3;
    hardware_version = 1;
    baud = 48;
    num_outputs = 4;
    flags = 0;
    device_id = 1;
    address = 7;
  };
  object_type = 2;
  buffer_size = 64;
  msg_version = 2;
}

abbrev poll_headers : MsgHdr × ReplyHdr
poll_headers = (
  record { startcode = 0xFC; crc = 0; version = 2; length = 23; mtype = 2; flags = 2; address = 0 },
  poll_reply poll_hdr,
)

abbrev poll_request : Bytes
poll_request = 0xFC ∷ 0 ∷ 2 ∷ 8 ∷ 2 ∷ 2 ∷ 7 ∷ 0 ∷ []

abbrev server : List Poll → HmtlServer
server polls = record {
  ser = record { incoming = polls; written = []; last_received = 0 };
  sent = [];
  connected = true;
  replied = false;
  terminate = false;
}

abbrev answering : List Poll
answering = arrival ok_line 20 ∷ silence 220 ∷ arrival (message poll_bytes) 260 ∷ []

abbrev output_bytes : Bytes
output_bytes = 0xFC ∷ 0 ∷ 2 ∷ 8 ∷ 1 ∷ 2 ∷ 0 ∷ 0 ∷ []

abbrev requests : List (ℕ × Value)
requests = (0, bytes poll_request) ∷ (100, str "data") ∷ (300, bytes []) ∷ (400, str "exit") ∷ []

send_and_ack-NothingUnread_example :
    NothingUnread
      (send_and_ack writes writes no_text clock 0 (bytes poll_request) true (server answering))
send_and_ack-NothingUnread_example =
    send_and_ack-NothingUnread writes writes no_text clock (λ v. refl) 0 (bytes poll_request) true
      (server answering) refl refl

-- No message comes in time, and one request is enough.
response_loop-Finishes_example :
    (response_loop writes writes no_text clock 1 0 no_responses (server (silence 9000 ∷ []))).0
    ≢ none
response_loop-Finishes_example =
    response_loop-Finishes writes writes no_text clock (λ v. refl) 1 0 no_responses
      (server (silence 9000 ∷ [])) refl (omega arith)

send_and_ack-response_example :
    ((send_and_ack writes writes no_text clock 0 (bytes poll_request) true (server answering)).0
      ≡ some (
          returned
            (some (record { messages = bytes poll_bytes ∷ []; headers = some poll_headers ∷ [] }))))
    × ((send_and_ack writes writes no_text clock 0
          (bytes poll_request)
          true
          (server answering)).1.ser.written
        ≡ bytes poll_request ∷ [])
unfolding build msg_to_headers MsgHdr.more_data data_check hmtl.Protocol.Messages.get_poll_msg
    MsgHdr.from_data
send_and_ack-response_example =
    send_and_ack-response writes writes no_text clock (λ v. refl) 0 (poll 7) poll_request
      (server answering) (arrival ok_line 20) (arrival (message poll_bytes) 260) ok_line
      (message poll_bytes) (silence 220 ∷ []) [] poll_headers refl refl refl refl refl refl
      (refl, tt) refl refl refl refl

get_response_data-undecoded_example :
    (get_response_data writes writes no_text clock 0
      (server (arrival (message output_bytes) 20 ∷ []))).0
    ≡ returned nothing
unfolding MsgHdr.from_data
get_response_data-undecoded_example =
    get_response_data-undecoded writes writes no_text clock (λ v. refl) 0
      (server (arrival (message output_bytes) 20 ∷ [])) [] [] (arrival (message output_bytes) 20)
      (message output_bytes)
      (record {
        startcode = 0xFC;
        crc = 0;
        version = 2;
        length = 8;
        mtype = 1;
        flags = 2;
        address = 0;
      })
      refl refl tt refl refl refl refl (λ h. omega arith, λ h. omega arith)

-- A scanner that knows nothing yet polls addresses 7 and 8; the module at 7 answers too late for 7.
abbrev scanner : List Poll → DeviceScanner
scanner polls = record { server = server polls; devices = (5, new_module 0 poll_hdr) ∷ [] }

scan-IsKept_example :
    IsKept
      (scanner answering).devices
      (scan writes writes no_text clock clock clock (7 ∷ 8 ∷ []) (scanner answering)).devices
scan-IsKept_example =
    scan-IsKept writes writes no_text clock clock clock (7 ∷ 8 ∷ []) (scanner answering)

abbrev header_bytes : Bytes
header_bytes = 0xFC ∷ 0 ∷ 2 ∷ 23 ∷ 2 ∷ 2 ∷ 0 ∷ 0 ∷ []

abbrev poll_body : Bytes
poll_body = 0x5C ∷ 3 ∷ 1 ∷ 48 ∷ 4 ∷ 0 ∷ 1 ∷ 0 ∷ 7 ∷ 0 ∷ 2 ∷ 0 ∷ 64 ∷ 0 ∷ 2 ∷ []

header_packed : MsgHdr.pack poll_headers.0 ≡ ok header_bytes
unfolding MsgHdr.pack
header_packed = refl

body_packed : Struct.pack poll_fmt (poll_fields poll_hdr) ≡ ok poll_body
unfolding Struct.pack
body_packed = refl

-- The module of address 7 answers the poll of address 120.
on_answer-poll_example :
    (find 7 (on_answer 300 120 (returned (some (message poll_bytes))) []) ≡ find 7 [])
    × (((find 120 [] ≡ none)
          × (find 120 (on_answer 300 120 (returned (some (message poll_bytes))) [])
              ≡ some (record {
                protocol_version = 3;
                hardware_version = 1;
                baud = 48;
                num_outputs = 4;
                flags = 0;
                device_id = 1;
                address = 7;
                object_type = 2;
                buffer_size = 64;
                msg_version = 2;
                active = true;
                last_active = 300;
              })))
        ⊎ ((m : HmtlModule) × (find 120 [] ≡ some m)
            × (find 120 (on_answer 300 120 (returned (some (message poll_bytes))) [])
                ≡ some (record m { active = true; last_active = 300 }))))
on_answer-poll_example =
    on_answer-poll 300 120 7 (message poll_bytes) poll_headers.0 poll_hdr header_bytes poll_body []
      [] (omega arith) header_packed refl body_packed refl

-- The client's response, the acknowledgement of the scanner's poll, silence for the scanner, and
-- silence for the client.
abbrev stolen : List Poll
stolen = arrival (message poll_bytes) 10 ∷ arrival ok_line 20 ∷ silence 900 ∷ silence 9000 ∷ []

get_response_data-poll_address_example :
    (get_response_data writes writes no_text clock 1
      (poll_address writes writes no_text clock clock clock 0
        (ok poll_request)
        (record { server = server stolen; devices = [] })).1.server).0
    ≡ returned nothing
unfolding data_check confirm_check
get_response_data-poll_address_example =
    get_response_data-poll_address writes writes no_text clock (λ v. refl) clock clock clock 1 0
      poll_request (record { server = server stolen; devices = [] })
      (arrival (message poll_bytes) 10) (arrival ok_line 20) (silence 900) (silence 9000) []
      (returned none) refl refl refl refl refl refl refl

-- Two clients one after the other, and one with another key.
abbrev attempts : List Attempt
attempts =
    accepted ((0, bytes poll_request) ∷ (100, str "data") ∷ [])
    ∷ accepted ((400, bytes []) ∷ [])
    ∷ []

-- The server behind the poll request and its acknowledgement.
abbrev acknowledged : HmtlServer
acknowledged = record {
  ser = record {
    incoming = silence 220 ∷ arrival (message poll_bytes) 260 ∷ [];
    written = bytes poll_request ∷ [];
    last_received = 20;
  };
  sent = str "ack" ∷ [];
  connected = true;
  replied = true;
  terminate = false;
}

recv_round-undecodable_example :
    recv_round writes writes no_text 300 (err Error.exception) acknowledged ≡ (served, acknowledged)
unfolding listen_round MsgHdr.from_data is_os_error new_item send_data
recv_round-undecodable_example =
    recv_round-undecodable writes writes no_text 0 300 (bytes poll_request) Error.exception
      (server answering) acknowledged refl refl
