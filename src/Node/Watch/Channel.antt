-- ===== src/Node/Watch/Channel.antt =====
-- A concrete channel: it holds the number of its receivers and what was sent, the last first.
use ferriskv.Prelude.{ℕ, ◌+◌, List, [], ◌∷◌}
use ferriskv.Node.Watch.{Broadcast, KeyChange}

abbrev pub broadcast : Broadcast
broadcast = record {
  Sender = ℕ × List KeyChange;
  Receiver = ℕ;
  channel = λ capacity. (0, []);
  subscribe = λ tx. (tx.0, (tx.0 + 1, tx.1));
  receiver_count = λ tx. tx.0;
  send = λ tx change. (tx.0, change ∷ tx.1);
}
