-- ===== src/Prelude/Values.antt =====
-- Values of `json.loads`, and the parts of Python's runtime that the model takes as parameters.
use Prim.Native.Nat.{ℕ, suc, ◌*◌, ◌-◌}
use mathlib.Core.Bool.{Bool, true, false}
use mathlib.Core.Option.{Option, none, some}
use loony_dev.Prelude.Tests.{if◌then◌else◌}
use loony_dev.Prelude.Int.{ℤ, pos, negsuc}
use loony_dev.Prelude.Strings.{Text, text_eq}

-- A float is a time: its number of clock ticks, a microsecond each.
mutual
  pub data Json : Type 0 where
    null : Json
    bool : Bool → Json
    int : ℤ → Json
    float : ℤ → Json
    str : Text → Json
    arr : Items → Json
    obj : Fields → Json

  pub data Items : Type 0 where
    nil : Items
    cons : Json → Items → Items

  pub data Fields : Type 0 where
    end : Fields
    field : Text → Json → Fields → Fields

-- `data.get(key)`
unfoldable pub get : Text → Fields → Option Json
get k end = none
get k (field j v fs) = if text_eq j k then some v else get k fs

-- `data.get(key, default)`
unfoldable pub get_default : Text → Fields → Json → Json
unfolding get
get_default k fs d = elim (get k fs) [ none ↦ d | some v ↦ v ]

-- `int(x) if isinstance(x, int) else None`; a bool is an int.
unfoldable pub as_int : Json → Option ℤ
as_int (int z) = some z
as_int (bool true) = some (pos 1)
as_int (bool false) = some (pos 0)
as_int _ = none

abbrev pub ticks_per_second : ℕ
ticks_per_second = 1000000

-- A whole number of seconds, in ticks.
unfoldable pub seconds : ℤ → ℤ
seconds (pos n) = pos (n * ticks_per_second)
seconds (negsuc n) = negsuc (suc n * ticks_per_second - 1)

-- `float(x) if isinstance(x, (int, float)) else None`
unfoldable pub as_float : Json → Option ℤ
unfolding seconds
as_float (float z) = some z
as_float (int z) = some (seconds z)
as_float (bool true) = some (seconds (pos 1))
as_float (bool false) = some (pos 0)
as_float _ = none

-- `x if isinstance(x, bool) else False`
unfoldable pub as_bool : Json → Bool
as_bool (bool b) = b
as_bool _ = false

-- What the model takes of the standard library without defining it: `json.dumps` (plain, with `indent=2`) and
-- `json.loads` (`none` for `ValueError`), `str` of a value that is no string, `float` of a text,
-- `datetime.fromisoformat` as a time in ticks (a naive time is in UTC), and the ten hexadecimal
-- digits that a SHA-256 digest begins with, and `str.lower`.
pub record Python : Type 0 where
  pub dumps : Json → Text
  pub dumps_indented : Json → Text
  pub loads : Text → Option Json
  pub repr : Json → Text
  pub parse_float : Text → Option ℤ
  pub timestamp_of : Text → Option ℤ
  pub digest : Text → Text
  pub lower : Text → Text

-- `str(x)`
unfoldable pub str_of : Python → Json → Text
str_of py (str t) = t
str_of py null = py.repr null
str_of py (bool b) = py.repr (bool b)
str_of py (int z) = py.repr (int z)
str_of py (float z) = py.repr (float z)
str_of py (arr xs) = py.repr (arr xs)
str_of py (obj fs) = py.repr (obj fs)

-- `str(x) if x is not None else None`
unfoldable pub str_or_none : Python → Json → Option Text
unfolding str_of
str_or_none py null = none
str_or_none py (str t) = some t
str_or_none py (bool b) = some (str_of py (bool b))
str_or_none py (int z) = some (str_of py (int z))
str_or_none py (float z) = some (str_of py (float z))
str_or_none py (arr xs) = some (str_of py (arr xs))
str_or_none py (obj fs) = some (str_of py (obj fs))

unfoldable pub text_or_null : Option Text → Json
text_or_null none = null
text_or_null (some t) = str t

unfoldable pub int_or_null : Option ℤ → Json
int_or_null none = null
int_or_null (some z) = int z
