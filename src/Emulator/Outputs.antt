-- ===== src/Emulator/Outputs.antt =====
-- The output classes of python/hmtl/emulator/outputs.py. Numbers are taken non-negative.
use hmtl.Prelude.{
  ℕ, ◌%◌, ◌^◌, List, [], ◌∷◌, Option, none, some, Bool, false, replicate, Result, ok, err,
  value_error, if◌then◌else◌,
}
use hmtl.Config.Words.{ℤ, pos}
use Prim.Native.String.{String}
use text.Mathlib.Text.{◌==◌ as str_eq}

abbrev pub Rgb : Type 0
Rgb = ℕ × ℕ × ℕ

-- One constructor for each class, with the object's fields; and `int_output`, an object behind
-- `set_rgb` with three ints that are not all non-negative, which a fade writes before its start.
pub data Output : Type 0 where
  value_output : (pin value : ℕ) → Output
  rgb_output : (pins values : List ℕ) → Output
  pixel_output : (num_pixels : ℕ) → (pixels : List Rgb) → Output
  rs485_output : Output
  mpr121_output : (touched : List Bool) → Output
  int_output : Output → ℤ → ℤ → ℤ → Output

-- `set_value`
unfoldable pub set_value : ℕ → Output → Output
set_value v (value_output pin value) = value_output pin (v % 2 ^ 13)
set_value v (rgb_output pins values) = rgb_output pins (v ∷ v ∷ v ∷ [])
set_value v (pixel_output n pixels) = pixel_output n (replicate n (v, v, v))
set_value v rs485_output = rs485_output
set_value v (mpr121_output touched) = mpr121_output touched
set_value v (int_output o r g b) = set_value v o

-- `set_rgb`
unfoldable pub set_rgb : Rgb → Output → Output
set_rgb (r, g, b) (value_output pin value) = value_output pin r
set_rgb (r, g, b) (rgb_output pins values) = rgb_output pins (r ∷ g ∷ b ∷ [])
set_rgb (r, g, b) (pixel_output n pixels) = pixel_output n (replicate n (r, g, b))
set_rgb c rs485_output = rs485_output
set_rgb c (mpr121_output touched) = mpr121_output touched
set_rgb c (int_output o r g b) = set_rgb c o

-- `set_rgb`, with any ints.
unfoldable pub set_ints : ℤ → ℤ → ℤ → Output → Output
unfolding set_rgb
set_ints (pos r) (pos g) (pos b) o = set_rgb (r, g, b) o
set_ints r g b o = int_output o r g b

-- `reset`
unfoldable pub reset : Output → Output
reset (value_output pin value) = value_output pin 0
reset (rgb_output pins values) = rgb_output pins (0 ∷ 0 ∷ 0 ∷ [])
reset (pixel_output n pixels) = pixel_output n (replicate n (0, 0, 0))
reset rs485_output = rs485_output
reset (mpr121_output touched) = mpr121_output (replicate 12 false)
reset (int_output o r g b) = reset o

-- The dict that `state` returns.
pub data OutputState : Type 0 where
  value_state : ℕ → OutputState
  rgb_state : List ℕ → OutputState
  pixel_state : List Rgb → OutputState
  rs485_state : OutputState
  mpr121_state : List Bool → OutputState
  value_ints : ℤ → OutputState
  rgb_ints : ℤ → ℤ → ℤ → OutputState
  pixel_ints : ℕ → ℤ → ℤ → ℤ → OutputState

-- `state` behind `set_rgb(r, g, b)` with any ints; the pixels are all alike.
int_state : Output → ℤ → ℤ → ℤ → OutputState
int_state (value_output pin value) r g b = value_ints r
int_state (rgb_output pins values) r g b = rgb_ints r g b
int_state (pixel_output n pixels) r g b = pixel_ints n r g b
int_state rs485_output r g b = rs485_state
int_state (mpr121_output touched) r g b = mpr121_state touched
int_state (int_output o r' g' b') r g b = int_state o r g b

unfoldable pub state : Output → OutputState
unfolding int_state
state (value_output pin value) = value_state value
state (rgb_output pins values) = rgb_state values
state (pixel_output n pixels) = pixel_state pixels
state rs485_output = rs485_state
state (mpr121_output touched) = mpr121_state touched
state (int_output o r g b) = int_state o r g b

-- An output's dict in a JSON configuration: the keys that the constructors look up.
pub record OutputConfig : Type 0 where
  pub kind : Option String
  pub pin : Option ℕ
  pub value : Option ℕ
  pub pins : Option (List ℕ)
  pub values : Option (List ℕ)
  pub numpixels : Option ℕ

-- `config.get(key, default)`
abbrev pub get_default {ℓ} : {A : Type ℓ} → Option A → A → A
get_default none d = d
get_default (some a) d = a

make_typed : String → OutputConfig → Result Output
make_typed t c =
    if str_eq t "value"
    then ok (value_output (get_default c.pin 0) (get_default c.value 0))
    else (if str_eq t "rgb"
        then ok (
            rgb_output (get_default c.pins (0 ∷ 0 ∷ 0 ∷ []))
              (get_default c.values (0 ∷ 0 ∷ 0 ∷ [])))
        else (if str_eq t "pixels"
            then (let n = get_default c.numpixels 0 in ok (pixel_output n (replicate n (0, 0, 0))))
            else (if str_eq t "rs485"
                then ok rs485_output
                else (if str_eq t "mpr121"
                    then ok (mpr121_output (replicate 12 false))
                    else err value_error))))

-- `make_output`; a configuration with no type is refused like one with an unknown type.
unfoldable pub make_output : OutputConfig → Result Output
unfolding make_typed
make_output c = elim c.kind [ none ↦ err value_error | some t ↦ make_typed t c ]
