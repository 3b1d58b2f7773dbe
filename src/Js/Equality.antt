-- ===== src/Js/Equality.antt =====
-- `===` on values.
use beepa.Prelude.{Bool, true, false, not, ◌&&◌, ◌||◌, nat_eq, ◌==◌}
use beepa.Js.Numbers.{Number, infinite, finite}
use beepa.Js.Json.{Value, undefined, null, bool, num, str}

abbrev pub same_bool : Bool → Bool → Bool
same_bool true b = b
same_bool false b = not b

-- NaN is not equal to itself, and the two zeros are equal.
abbrev pub same_number : Number → Number → Bool
same_number (finite s m f) (finite s' m' f') =
    nat_eq m m' && nat_eq f f' && (same_bool s s' || (nat_eq m 0 && nat_eq f 0))
same_number (infinite s) (infinite s') = same_bool s s'
same_number _ _ = false

-- Objects and arrays that were parsed apart are different objects.
abbrev pub strictly_equal : Value → Value → Bool
strictly_equal undefined undefined = true
strictly_equal null null = true
strictly_equal (bool a) (bool b) = same_bool a b
strictly_equal (num a) (num b) = same_number a b
strictly_equal (str a) (str b) = a == b
strictly_equal _ _ = false
