-- ===== src/Observation/Told.antt =====
-- What stands in the event log of system/core/observation/observation_logger.py, but for the times.
use mathlib.Core.List.{map-append}
use capability_os.Base.{String, List, [], ◌∷◌, ◌++◌, map, ◌≡◌}
use capability_os.Value.{Value, text, dict, Fields, end, field}
use capability_os.Observation.{Event, step_started, step_succeeded, step_failed, Entry, Logger}

abbrev pub told : Entry → Event × Fields
told e = (e.event, e.payload)

abbrev pub tell_all : List Entry → List (Event × Fields)
tell_all logs = map told logs

abbrev pub tell : Logger → List (Event × Fields)
tell l = tell_all l.runtime.logs

pub tell-append :
    (logs : List Entry) (x : Entry) → tell_all (logs ++ x ∷ []) ≡ tell_all logs ++ told x ∷ []
tell-append logs x = map-append told logs (x ∷ [])

abbrev pub start_told : String → Fields → Event × Fields
start_told id params = (step_started, field "step_id" (text id) (field "params" (dict params) end))

abbrev pub success_told : String → Value → Event × Fields
success_told id v = (step_succeeded, field "step_id" (text id) (field "output" v end))

abbrev pub failure_told : String → String → String → Event × Fields
failure_told id code message = (
  step_failed,
  field "step_id" (text id)
      (field "error_code" (text code) (field "error_message" (text message) end)),
)
