-- ===== src/SourceRooms/Tests.antt =====
-- A run of shared/model/source_rooms.js over spaces that hold one another.
use beepa.Prelude.{suc, String, true, false, none, some, List, [], ◌∷◌, ◌≡◌, refl}
use beepa.SourceRooms.{Room, Source, start, walk, turns, source_room_ids}
use beepa.SourceRooms.Finishes

abbrev signal : Source
signal = record { id = "signal"; is_source = true; space_name = "Signal"; child_space_names = none }

abbrev space : String → List String → String × Room
space id children =
    (id, record { id = id; is_space = true; name = some "Signal rooms"; children = children })

abbrev chat : String → String × Room
chat id = (id, record { id = id; is_space = false; name = none; children = [] })

abbrev rooms : List (String × Room)
rooms =
    space "!root:h" ("!sub:h" ∷ "!a:h" ∷ [])
    ∷ space "!sub:h" ("!root:h" ∷ "!b:h" ∷ "!a:h" ∷ [])
    ∷ chat "!a:h"
    ∷ chat "!b:h"
    ∷ []

rooms_of_signal : source_room_ids "h" (signal ∷ []) signal rooms [] ≡ "!a:h" ∷ "!b:h" ∷ []
unfolding source_room_ids
rooms_of_signal = refl

source_room_ids_finishes_example :
    walk "h"
      (signal ∷ [])
      signal
      rooms
      []
      (suc (turns "h" (signal ∷ []) signal rooms [] (start "h" (signal ∷ []) signal rooms [])))
      (start "h" (signal ∷ []) signal rooms [])
    ≡ some (source_room_ids "h" (signal ∷ []) signal rooms [])
source_room_ids_finishes_example =
    Finishes.source_room_ids_finishes "h" (signal ∷ []) signal rooms []
