-- ===== src/Protocol/Tests.antt =====
-- Builders and parser on concrete arguments.
use hmtl.Prelude.{◌≡◌, refl, [], ◌∷◌, Bytes, ok, arith}
use hmtl.Protocol.Programs.{ProgramColor, color_new, color_msg}
use hmtl.Protocol.Layout.{wire}
use hmtl.Protocol.Headers.{TcpSocketHeader}
use hmtl.Protocol.Colors.{color_msg-color_new}

abbrev violet : ProgramColor
violet = record { values = 128 ∷ 0 ∷ 255 ∷ []; start = 3; length = 10 }

violet_new : color_new (128 ∷ 0 ∷ 255 ∷ []) 3 10 ≡ ok violet
unfolding color_new
violet_new = refl

color_msg-color_new_example :
    (body : Bytes) × (color_msg 5 0 violet ≡ ok (wire 43 1 0 5 (3 ∷ 0 ∷ 0x31 ∷ body)))
color_msg-color_new_example =
    color_msg-color_new 5 0 (128 ∷ 0 ∷ 255 ∷ []) 3 10 violet (omega arith) (omega arith) violet_new

abbrev tcp_header : TcpSocketHeader
tcp_header = record { id = 1; datalen = 4; source = 0x12; dest = 128; flags = 0x56 }

abbrev tcp_bytes : Bytes
tcp_bytes = 0x53 ∷ 0x50 ∷ 0x43 ∷ 0x54 ∷ 1 ∷ 1 ∷ 4 ∷ 0x56 ∷ 0x12 ∷ 0 ∷ 128 ∷ 0 ∷ []
