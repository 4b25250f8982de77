-- ===== src/Node/Watch/Examples.antt =====
-- watch.rs with two tenants.
use ferriskv.Prelude.{◌≡◌, refl, some, List, [], ◌∷◌}
use ferriskv.Prelude.Bytes.{Bytes, bytes_eq}
use ferriskv.Prelude.Assoc.{lookup, insert}
use ferriskv.Node.Watch.{WatchHub, KeyChange, put, new, publish, subscribe}
use ferriskv.Node.Watch.Channel.{broadcast}
use ferriskv.Node.Watch.Delivery.{Call, subscribed, published, only, run, run_isolated}

abbrev a : Bytes
a = b'a' ∷ []

abbrev b : Bytes
b = b'b' ∷ []

abbrev change : Bytes → KeyChange
change value = record { kind = put; key = b'k' ∷ []; value = value }

abbrev calls : List Call
calls =
    subscribed a
    ∷ published b (change [])
    ∷ published a (change (1 ∷ []))
    ∷ subscribed b
    ∷ published b (change (2 ∷ []))
    ∷ []

abbrev hub : WatchHub broadcast
hub = new 16

run_isolated_example :
    lookup a (run calls hub).channels ≡ lookup a (run (only a calls) hub).channels
run_isolated_example = run_isolated a calls hub tt

one_change : lookup a (run calls hub).channels ≡ some (1, change (1 ∷ []) ∷ [])
unfolding run lookup insert bytes_eq publish subscribe
one_change = refl
