-- ===== src/Triangle/Tests.antt =====
-- A triangle program's message.
use hmtl.Prelude.{◌≡◌, refl, [], ◌∷◌, ◌++◌, Bytes, length}
use hmtl.Struct
use hmtl.Protocol.Frame.{IsFrame}
use hmtl.Protocol.Messages.{three}
use hmtl.Triangle.{TriangleProgram, snake, msg}
use hmtl.Triangle.Length.{msg_length}

abbrev red_snake : TriangleProgram
red_snake = snake (record { period = 100; background = 255 ∷ 0 ∷ 0 ∷ []; colormode = 1 })

abbrev red_snake_msg : Bytes
red_snake_msg =
    0xFC ∷ 0 ∷ 2 ∷ 43 ∷ 1 ∷ 0 ∷ 7 ∷ 0 ∷ 3 ∷ 254 ∷ 34 ∷ 100 ∷ 0 ∷ 255 ∷ 0 ∷ 0 ∷ 1 ∷ 0 ∷ 0 ∷ 0 ∷ 0 ∷ 0
    ∷ 0 ∷ []

msg_length_example :
    (length red_snake_msg ≡ 23)
    × (¬ IsFrame red_snake_msg)
    × ((more : Bytes) → length more ≡ 20 → IsFrame (red_snake_msg ++ more))
unfolding msg three Struct.pack_args Struct.pack
msg_length_example = msg_length 7 254 red_snake red_snake_msg refl
