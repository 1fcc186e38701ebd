-- ===== src/Memory/Tests.antt =====
-- Runs of system/core/memory/memory_manager.py.
use capability_os.Base.{
  ℕ, String, true, false, Option, none, some, List, [], ◌∷◌, length, strip, ◌==◌, has,
  if◌then◌else◌, ◌+◌, pos, ◌≡◌, ◌≢◌, refl, map,
}
use capability_os.Value.{text}
use capability_os.Memory.{
  absent, Manager, open_manager, Request, remember, recall, recall_all, cleanup_expired,
}
use capability_os.Memory.Recalled.{recall-remember}
use capability_os.Memory.Stores.{IsStore-empty}
use capability_os.Memory.Valid.{IsValid}
use capability_os.Memory.Operations.{
  Op, remembering, recalling, forgetting_key, reopening, perform_all, perform_all-IsValid,
}
use capability_os.Memory.Expiry.{current, cleanup_expired-current}

abbrev parse_iso : String → Option ℕ
parse_iso s = if s == "day 1" then some 86400000000 else none

abbrev theme : String → Request
theme value = record {
  key = " theme ";
  value = text value;
  memory_type = "user_preference";
  capability_id = none;
  ttl_days = some (pos 1);
}

abbrev untyped : Request
untyped = record (theme "red") { memory_type = "mood" }

abbrev empty : Manager
empty = open_manager absent true

-- A key is remembered twice: the second value takes the first one's place. The third is refused.
abbrev ops : List Op
ops =
    remembering (theme "dark") "day 1" "mem_1"
    ∷ remembering (theme "light") "day 2" "mem_2"
    ∷ remembering untyped "day 2" "mem_3"
    ∷ reopening
    ∷ recalling "theme"
    ∷ []

abbrev manager : Manager
manager = perform_all parse_iso ops empty

latest_recalled : (recall "theme" manager).0 ≡ some (text "light")
unfolding recall perform_all open_manager
latest_recalled = refl

one_record :
    map {B = String × ℕ} (λ r. (r.id, r.access_count)) (recall_all none none manager)
    ≡ ("mem_1", 1) ∷ []
unfolding recall_all perform_all open_manager
one_record = refl

-- An update does not set the creation time anew, so the value of the second day expires with the first.
expires_from_creation : (recall "theme" (cleanup_expired parse_iso 172800000001 manager).1).0 ≡ none
unfolding recall cleanup_expired perform_all open_manager
expires_from_creation = refl

forgotten : (recall "theme" (perform_all parse_iso (forgetting_key "theme" ∷ []) manager)).0 ≡ none
unfolding recall perform_all open_manager
forgotten = refl

theme_named : strip " theme " ≢ ""
unfolding strip
theme_named h = cc

no_records : has "mem_1" empty.memories ≡ false
unfolding has open_manager
no_records = refl

recall-remember_example :
    (recall "theme" (remember (theme "dark") "day 1" "mem_1" empty).1).0
    ≡ (if strip " theme " == strip "theme" then some (text "dark") else (recall "theme" empty).0)
recall-remember_example =
    recall-remember (theme "dark") "day 1" "mem_1" empty "theme" theme_named refl no_records

empty-IsValid : IsValid empty
unfolding open_manager
empty-IsValid = record { store = IsStore-empty; file_store = IsStore-empty; saved = λ w. refl }

manager-IsValid : IsValid manager
manager-IsValid = perform_all-IsValid parse_iso ops empty empty-IsValid

perform_all-IsValid_example : IsValid (perform_all parse_iso ops empty)
perform_all-IsValid_example = perform_all-IsValid parse_iso ops empty empty-IsValid

cleanup_expired-current_example :
    ((cleanup_expired parse_iso 172800000001 manager).1.memories
      ≡ current parse_iso 172800000001 manager.memories)
    × ((cleanup_expired parse_iso 172800000001 manager).0
          + length (current parse_iso 172800000001 manager.memories)
        ≡ length manager.memories)
cleanup_expired-current_example =
    cleanup_expired-current parse_iso 172800000001 manager manager-IsValid.store
