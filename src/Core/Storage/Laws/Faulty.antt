-- ===== src/Core/Storage/Laws/Faulty.antt =====
-- storage.rs with an engine that applies each write and then fails, as one that cannot rotate its
-- tables does.
use ferriskv.Prelude.{inr}
use ferriskv.Prelude.Assoc.{
  insert, remove, lookup-insert, lookup-remove, insert-Distinct, remove-Distinct,
}
use ferriskv.Core.Storage.FjallStorage.{Fjall, fault}
use ferriskv.Core.Storage.Laws.{FjallLaws}
use ferriskv.Core.Storage.Laws.Engine.{engine, engine-FjallLaws, contents}

abbrev pub faulty : Fjall
faulty = record engine {
  insert = λ ks k v. (fault "poisoned", (insert k v ks.0, insert-Distinct k v ks.0 ks.1));
  remove = λ ks k. (fault "poisoned", (remove k ks.0, remove-Distinct k ks.0 ks.1));
}

pub faulty-FjallLaws : FjallLaws faulty contents
faulty-FjallLaws = record {
  distinct = engine-FjallLaws.distinct;
  get = engine-FjallLaws.get;
  insert = λ ks k v h. cc;
  remove = λ ks k h. cc;
  insert_failed = λ ks k v e h. inr (λ j. lookup-insert k j v ks.0);
  remove_failed = λ ks k e h. inr (λ j. lookup-remove k j ks.0 ks.1);
  prefix = engine-FjallLaws.prefix;
  range = engine-FjallLaws.range;
  persist = engine-FjallLaws.persist;
}
