-- ===== src/Node/Throttle/Examples.antt =====
-- throttle.rs with two tenants at two operations per second.
use ferriskv.Prelude.{◌≡◌, List, [], ◌∷◌}
use ferriskv.Prelude.Bytes.{Bytes}
use ferriskv.Node.Throttle.{Throttle, new}
use ferriskv.Node.Throttle.Window.{governor}
use ferriskv.Node.Throttle.Admission.{Request, only, checked, run, check_isolated}

abbrev request : Bytes → Request
request tenant = record { now = 0; tenant = tenant; ops_per_sec = 2; cost = 1 }

abbrev a : Bytes
a = b'a' ∷ []

abbrev b : Bytes
b = b'b' ∷ []

abbrev requests : List Request
requests = request a ∷ request b ∷ request b ∷ request b ∷ request a ∷ []

abbrev throttle : Throttle governor
throttle = new 0

check_isolated_example :
    (checked (run requests throttle) (request a)).0
    ≡ (checked (run (only a requests) throttle) (request a)).0
check_isolated_example = check_isolated requests throttle (request a)
