-- ===== src/Matrix/Client/Local/Keeps.antt =====
-- The homeserver in memory as an instance of what is assumed of the real one.
use beepa.Prelude.{String, some, List, ◌≡◌, refl, arith, lookup-insert, eq_refl, insert, lookup}
use beepa.Js.{Value}
use beepa.Matrix.Client.{put, Response}
use beepa.Matrix.Client.AccountData.{KeepsAccountData}
use beepa.Matrix.Client.Local.{Local, local, serve}

lookup-insert_self :
    (k : String) (v : Value) (m : List (String × Value)) → lookup k (insert k v m) ≡ some v
lookup-insert_self k v m = simp (lookup-insert, eq_refl)

stored_answer :
    (path : String) (v : Value) (w w' : Local) (res : Response)
    → serve put path (some v) w ≡ (w', some res)
    → lookup path w'.account ≡ some v
stored_answer path v w w' res h = ground (arith, lookup-insert_self path v w.account)

pub local-KeepsAccountData : KeepsAccountData local
local-KeepsAccountData = record {
  stored = λ path t v w w' res h good. rw (stored_answer path v w w' res h) refl;
  steady = λ r w. refl;
}
