-- ===== src/Protocol/Headers.antt =====
-- The headers of python/hmtl/HMTLprotocol.py that no message of the library carries to a parser:
-- `TCPSocketHeader`, `SetAddress`, and the reading of a `ProgramHdr`.
use hmtl.Prelude.{
  ℕ, ◌≡◌, ◌∙◌, refl, ap, sym, ◌%◌, ◌/◌, ◌+◌, ◌*◌, List, [], ◌∷◌, Bytes, Result, ok, err, Error,
  ◌>>=◌, append-nil, arith,
}
use hmtl.Struct
use hmtl.Struct.{Code, byte, short, long, unpack_from}
use hmtl.Struct.RoundTrip.{unpack-pack}
use hmtl.Protocol.Frame.{get_set_addr_msg-eq-ok}
use hmtl.Protocol.Programs.{get_set_addr_msg}

pub record TcpSocketHeader : Type 0 where
  pub id : ℕ
  pub datalen : ℕ
  pub source : ℕ
  pub dest : ℕ
  pub flags : ℕ

-- `TCPSocketHeader.FORMAT`
abbrev pub tcp_fmt : List Code
tcp_fmt = long ∷ byte ∷ byte ∷ byte ∷ byte ∷ short ∷ short ∷ []

-- `TCPSocketHeader.STARTCODE` and `VERSION`
abbrev pub tcp_start_code : ℕ
tcp_start_code = 0x5443_5053

abbrev pub tcp_version : ℕ
tcp_version = 1

-- `TCPSocketHeader.pack`
unfoldable pub tcp_pack : TcpSocketHeader → Result Bytes
unfolding Struct.pack
tcp_pack h =
    Struct.pack tcp_fmt
      (tcp_start_code ∷ tcp_version ∷ h.id ∷ h.datalen ∷ h.flags ∷ h.source ∷ h.dest ∷ [])

-- `cls(*header)`: five arguments after `self`.
unfoldable pub tcp_of : List ℕ → Result TcpSocketHeader
tcp_of (i ∷ n ∷ s ∷ d ∷ f ∷ []) =
    ok (record { id = i; datalen = n; source = s; dest = d; flags = f })
tcp_of _ = err Error.type_error

-- `Msg.from_data` for a `TCPSocketHeader`.
unfoldable pub tcp_from_data : Bytes → ℕ → Result TcpSocketHeader
unfolding tcp_of unpack_from
tcp_from_data bs offset = do tcp_of (← unpack_from tcp_fmt bs offset)

pub record SetAddress : Type 0 where
  pub device_id : ℕ
  pub address : ℕ

-- `SetAddress.FORMAT`
abbrev pub set_address_fmt : List Code
set_address_fmt = short ∷ short ∷ []

-- `SetAddress.pack`
unfoldable pub set_address_pack : SetAddress → Result Bytes
unfolding Struct.pack
set_address_pack a = Struct.pack set_address_fmt (a.device_id ∷ a.address ∷ [])

unfoldable pub set_address_of : List ℕ → Result SetAddress
set_address_of (d ∷ a ∷ []) = ok (record { device_id = d; address = a })
set_address_of _ = err Error.type_error

-- `Msg.from_data` for a `SetAddress`.
unfoldable pub set_address_from_data : Bytes → ℕ → Result SetAddress
unfolding set_address_of unpack_from
set_address_from_data bs offset = do set_address_of (← unpack_from set_address_fmt bs offset)

-- `ProgramHdr.from_data`
unfoldable pub program_hdr_from_data : Bytes → ℕ → Result ℕ
program_hdr_from_data bs offset = err Error.exception

-- The bytes that a TCP header packs cannot be read as one: they raise TypeError.
pub tcp_from_data-tcp_pack :
    (h : TcpSocketHeader) (bs : Bytes)
    → tcp_pack h ≡ ok bs
    → tcp_from_data bs 0 ≡ err Error.type_error
unfolding tcp_pack tcp_from_data unpack_from tcp_of
tcp_from_data-tcp_pack h bs e =
    let fields : List ℕ =
      tcp_start_code ∷ tcp_version ∷ h.id ∷ h.datalen ∷ h.flags ∷ h.source ∷ h.dest ∷ [] in
    let read_back : Struct.unpack tcp_fmt bs ≡ ok fields =
      ap (λ (l : Bytes). Struct.unpack tcp_fmt l) (sym (append-nil bs))
      ∙ unpack-pack tcp_fmt fields bs [] e in
    rw read_back refl

-- The message that sets an address is a header and a packed `SetAddress`, which is read back.
pub set_address_from_data-get_set_addr_msg :
    (address device_id new : ℕ) (bs : Bytes)
    → get_set_addr_msg address device_id new ≡ ok bs
    → set_address_from_data bs 8 ≡ ok (record { device_id = device_id; address = new })
unfolding set_address_from_data unpack_from set_address_of Struct.unpack
set_address_from_data-get_set_addr_msg address device_id new bs e =
    let two_bytes : (n : ℕ) → n % 256 + 256 * (n / 256) ≡ n = λ n. omega arith in
    rw (get_set_addr_msg-eq-ok address device_id new bs e)
      (rw (two_bytes device_id, two_bytes new) refl)
