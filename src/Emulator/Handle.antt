-- ===== src/Emulator/Handle.antt =====
-- The messages that the emulator takes: `handle_bytes` and `_dispatch_output` of
-- python/hmtl/emulator/emulator.py.
use hmtl.Prelude.{
  ℕ, ◌%◌, ◌^◌, List, [], ◌∷◌, not, ◌&&◌, Bytes, length, drop, Result, ok, err, index_error,
  value_error, ◌>>=◌, leb, ltb, ◌==◌, if◌then◌else◌,
}
use hmtl.Struct.{byte, short, unpack_from}
use hmtl.Protocol.Constants.{msg_hdr_fmt, broadcast, msg_type_output}
use hmtl.Emulator.Device.{
  Emulator, set_output_value, set_output_rgb, install_program, otype_value, otype_rgb,
  otype_program,
}

-- What the branches of `_dispatch_output` do with the fields that struct returned. Python raises
-- ValueError or IndexError where their number is another.
unfoldable pub on_value : ℕ → Emulator → List ℕ → Result Emulator
on_value i em [] = err index_error
on_value i em (v ∷ _) = ok (set_output_value i (v % 2 ^ 13) em)

unfoldable pub on_rgb : ℕ → Emulator → List ℕ → Result Emulator
on_rgb i em (r ∷ g ∷ b ∷ []) = ok (set_output_rgb i (r, g, b) em)
on_rgb i em _ = err value_error

unfoldable pub on_program : ℕ → Bytes → Emulator → List ℕ → Result Emulator
on_program i payload em [] = err index_error
on_program i payload em (t ∷ _) = ok (install_program i t (drop 1 payload) em)

unfoldable pub dispatch_payload : ℕ → ℕ → Bytes → Emulator → Result Emulator
unfolding unpack_from on_value on_rgb on_program
dispatch_payload outputtype i payload em =
    if outputtype == otype_value
    then (if leb 2 (length payload)
        then (unpack_from (short ∷ []) payload 0 >>= on_value i em)
        else ok em)
    else (if outputtype == otype_rgb
        then (if leb 3 (length payload)
            then (unpack_from (byte ∷ byte ∷ byte ∷ []) payload 0 >>= on_rgb i em)
            else ok em)
        else (if outputtype == otype_program
            then (if leb 1 (length payload)
                then (unpack_from (byte ∷ []) payload 0 >>= on_program i payload em)
                else ok em)
            else ok em))

unfoldable pub on_output_hdr : Bytes → Emulator → List ℕ → Result Emulator
unfolding dispatch_payload
on_output_hdr bs em (t ∷ i ∷ []) = dispatch_payload t i (drop 2 bs) em
on_output_hdr bs em _ = err value_error

-- `_dispatch_output`
unfoldable pub dispatch_output : Bytes → Emulator → Result Emulator
unfolding on_output_hdr unpack_from
dispatch_output bs em =
    if ltb (length bs) 2
    then ok em
    else (unpack_from (byte ∷ byte ∷ []) bs 0 >>= on_output_hdr bs em)

-- The guards of `handle_bytes` behind the header.
unfoldable pub on_header : Bytes → Emulator → List ℕ → Result Emulator
unfolding dispatch_output
on_header bs em (startcode ∷ crc ∷ version ∷ len ∷ mtype ∷ flags ∷ address ∷ []) =
    if not (startcode == 0xFC)
    then ok em
    else (if not (address == broadcast) && not (address == em.address)
        then ok em
        else (if mtype == msg_type_output then dispatch_output (drop 8 bs) em else ok em))
on_header bs em _ = err value_error

-- `handle_bytes`: the new state, or what it raises.
unfoldable pub handle_bytes : Bytes → Emulator → Result Emulator
unfolding on_header unpack_from
handle_bytes bs em =
    if ltb (length bs) 8 then ok em else (unpack_from msg_hdr_fmt bs 0 >>= on_header bs em)
