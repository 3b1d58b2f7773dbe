-- ===== src/Crm/Slots.antt =====
-- The times at which `monitoringReminderSlot` of shared/model/crm.js places a reminder.
use native.Mathlib.Nat.{div-add-mod', mod-lt, div-mul-le_self}
use beepa.Prelude.{
  ℕ, ◌+◌, ◌-◌, ◌*◌, ◌/◌, ◌≤◌, ◌<◌, false, ◌||◌, none, some, ◌≡◌, refl, sym, arith, nat_eq, ltb,
  if◌then◌else◌,
}
use beepa.Js.{Value, undefined, null, bool, num, str, arr, obj, as_natural, is_nullish}
use beepa.Crm.Monitoring.{monitoring_reminder_slot}

-- The last slot up to a time: `k` repeats after the deadline.
last_slot :
    (d r at : ℕ)
    → d ≤ at
    → 60000 ≤ r
    → (d ≤ d + (at - d) / r * r) × (d + (at - d) / r * r ≤ at) × (at < d + (at - d) / r * r + r)
last_slot d r at after often =
    let whole_part = div-mul-le_self (at - d) r in
    let rest = div-add-mod' (at - d) r in
    let small = mod-lt (at - d) {m = r} (omega arith) in (omega arith, omega arith, omega arith)

natural-is_nullish : (v : Value) (n : ℕ) → as_natural v ≡ some n → is_nullish v ≡ false
natural-is_nullish undefined n h = ground (arith, h)
natural-is_nullish null n h = ground (arith, h)
natural-is_nullish (bool b) n h = refl
natural-is_nullish (num m) n h = refl
natural-is_nullish (str s) n h = refl
natural-is_nullish (arr vs) n h = refl
natural-is_nullish (obj fs) n h = refl

-- What a slot that was chosen says.
chosen :
    (d r at n : ℕ)
    → (if nat_eq d 0 || ltb at d
        then none
        else if ltb r 60000 || ltb 31536000000 r
        then none
        else some (d + (at - d) / r * r))
      ≡ some n
    → (d ≤ at) × (60000 ≤ r) × (d + (at - d) / r * r ≡ n)
chosen d r at n h = (ground (h, arith), ground (h, arith), ground (h, arith))

-- A repeating reminder is placed at the last of the deadline and its repeats that has passed: never
-- before the deadline, never in the future, less than one repeat ago, and a whole number of repeats after the deadline.
pub monitoring_reminder_slot-bounds :
    (due repeat : Value) (at n d r : ℕ)
    → as_natural due ≡ some d
    → as_natural repeat ≡ some r
    → monitoring_reminder_slot due repeat at ≡ some n
    → (d ≤ n) × (n ≤ at) × (at < n + r) × (k : ℕ) × (n ≡ d + k * r)
unfolding monitoring_reminder_slot
monitoring_reminder_slot-bounds due repeat at n d r is_due is_repeat h =
    let given =
      rw (monitoring_reminder_slot, is_due, is_repeat, natural-is_nullish repeat r is_repeat) at
        h in
    let (after, often, same) = chosen d r at n given in
    let (one, two, three) = last_slot d r at after often in
    rw (sym same) (one, two, three, (at - d) / r, refl)
