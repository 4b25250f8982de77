-- ===== src/Core/Storage/Laws/Examples.antt =====
-- storage.rs: a memory backend with one entry.
use ferriskv.Prelude.{refl, [], ◌∷◌}
use ferriskv.Prelude.Assoc.{lookup}
use ferriskv.Core.Storage.{StorageBackend, memory}
use ferriskv.Core.Storage.Laws.{IsMap, backend-IsMap}
use ferriskv.Core.Storage.Laws.Engine.{engine, engine-FjallLaws}

abbrev one_entry : StorageBackend engine
one_entry = memory ((1 ∷ [], 2 ∷ []) ∷ [])

backend-IsMap_example : IsMap (λ ks. ks.0) one_entry
unfolding lookup
backend-IsMap_example = backend-IsMap (λ ks. ks.0) engine-FjallLaws one_entry (refl, tt)
