-- ===== src/Js/Print.antt =====
-- `String(x)`, as far as a pattern can tell: a number prints as a text with no space, no colon and
-- no exclamation mark, and "0" stands for all of those.
use Prim.Native.String
use beepa.Prelude.{String, true, false}
use beepa.Js.Json.{Value, undefined, null, bool, num, str, arr, obj, Items, nil, cons}

abbrev join : String → Items → String → String
join a nil b = a
join a (cons _ _) b = String.◌++◌ a (String.◌++◌ "," b)

unfoldable mutual
  pub printed : Value → String
  printed undefined = "undefined"
  printed null = "null"
  printed (bool true) = "true"
  printed (bool false) = "false"
  printed (num n) = "0"
  printed (str s) = s
  printed (arr vs) = printed_items vs
  printed (obj fs) = "[object Object]"

  -- Elements of an array print as they are, but for null and undefined.
  pub printed_element : Value → String
  printed_element undefined = ""
  printed_element null = ""
  printed_element (bool true) = "true"
  printed_element (bool false) = "false"
  printed_element (num n) = "0"
  printed_element (str s) = s
  printed_element (arr vs) = printed_items vs
  printed_element (obj fs) = "[object Object]"

  pub printed_items : Items → String
  printed_items nil = ""
  printed_items (cons v vs) = join (printed_element v) vs (printed_items vs)
