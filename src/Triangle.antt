-- ===== src/Triangle.antt =====
-- The programs for triangle modules: python/hmtl/TrianglePrograms.py, and the choice of a message
-- in python/Triangles.py. Python's ints are taken non-negative, as in Protocol/Messages.
pub mod Length
mod Tests
use hmtl.Prelude.{
  ℕ, List, [], ◌∷◌, ◌++◌, Bytes, Bool, true, false, ◌==◌, ◌||◌, if◌then◌else◌, Result, ok, err,
  ◌>>=◌, replicate, Option, none, some,
}
use Prim.Native.String.{String}
use text.Mathlib.Text.{◌==◌ as str_eq}
use hmtl.Struct.{Code, byte, short, pad, pack_args}
use hmtl.Protocol.Messages.{at, three, get_rgb_msg, get_program_none_msg}
use hmtl.Protocol.Programs.{prepare}

pub record TriangleStatic : Type 0 where
  pub period : ℕ
  pub foreground : List ℕ
  pub background : List ℕ
  pub threshold : ℕ

-- `TriangleStatic.FORMAT`
abbrev pub static_fmt : List Code
static_fmt = (short ∷ replicate 7 byte) ++ replicate 3 pad

-- `TriangleStatic.pack`
unfoldable pub static_pack : TriangleStatic → Result Bytes
static_pack p = pack_args static_fmt do
  bg ← three p.background
  fg ← three p.foreground
  ok (p.period ∷ bg ++ (fg ++ (p.threshold ∷ [])))

pub record TriangleSnake : Type 0 where
  pub period : ℕ
  pub background : List ℕ
  pub colormode : ℕ

-- `TriangleSnake.FORMAT`
abbrev pub snake_fmt : List Code
snake_fmt = (short ∷ replicate 4 byte) ++ replicate 6 pad

-- `TriangleSnake.pack`
unfoldable pub snake_pack : TriangleSnake → Result Bytes
snake_pack p =
    pack_args snake_fmt do bg ← three p.background; ok (p.period ∷ bg ++ (p.colormode ∷ []))

-- The subclasses of `TriangleProgram`, with `PROGRAM_CODE`.
pub data TriangleProgram : Type 0 where
  static : TriangleStatic → TriangleProgram
  snake : TriangleSnake → TriangleProgram

-- `get_code`
abbrev pub get_code : TriangleProgram → ℕ
get_code (static p) = 33
get_code (snake p) = 34

-- `pack`
unfoldable pub pack : TriangleProgram → Result Bytes
unfolding static_pack snake_pack
pack (static p) = static_pack p
pack (snake p) = snake_pack p

-- `TriangleProgram.msg`: the header's length counts `ProgramHdr.LENGTH`, as in `prepare`.
unfoldable pub msg : ℕ → ℕ → TriangleProgram → Result Bytes
unfolding prepare pack
msg address output p = prepare (get_code p) address output (pack p)

-- The options of python/Triangles.py that choose and fill a message.
pub record Options : Type 0 where
  pub commandtype : Option String
  pub hmtladdress : ℕ
  pub output : ℕ
  pub period : ℕ
  pub foreground : String
  pub background : String
  pub threshold : ℕ
  pub colormode : ℕ

-- What `main` comes to: `exit(1)`, no message, or a message or the exception of its builder.
pub data Choice : Type 0 where
  exits no_message : Choice
  sends : Result Bytes → Choice

-- `ints s` is `[int(x) for x in s.split(",")]`.
module _ (ints : String → Result (List ℕ)) where
  unfoldable pub rgb_choice : Options → Choice
  rgb_choice o =
      if str_eq o.foreground ""
      then exits
      else (sends do
        fg ← ints o.foreground
        r ← at fg 0
        g ← at fg 1
        b ← at fg 2
        get_rgb_msg o.hmtladdress o.output r g b)

  unfoldable pub static_choice : Options → Choice
  static_choice o =
      if str_eq o.foreground "" || (str_eq o.background "" || (o.period == 0))
      then exits
      else (sends do
        fg ← ints o.foreground
        bg ← ints o.background
        msg o.hmtladdress o.output (
            static (record {
              period = o.period;
              foreground = fg;
              background = bg;
              threshold = o.threshold;
            })))

  unfoldable pub snake_choice : Options → Choice
  snake_choice o =
      if str_eq o.background "" || (o.period == 0)
      then exits
      else (sends do
        bg ← ints o.background
        msg o.hmtladdress o.output
            (snake (record { period = o.period; background = bg; colormode = o.colormode })))

  -- The `if` statements of `main`, whose commands exclude each other.
  unfoldable pub choose : Options → Choice
  unfolding rgb_choice static_choice snake_choice get_program_none_msg
  choose o = elim o.commandtype [
    | none ↦ no_message
    | some command ↦
        if str_eq command "rgb"
        then rgb_choice o
        else (if str_eq command "static"
            then static_choice o
            else (if str_eq command "snake"
                then snake_choice o
                else (if str_eq command "none"
                    then sends (get_program_none_msg o.hmtladdress o.output)
                    else no_message)))
  ]
