-- ===== src/Tests/ApiTests.antt =====
-- internal/api/server.go on a broker with one dead letter.
use vortexmq.Prelude.{ℕ, some, [], ◌∷◌, lookup, Bytes, bytes_dec, ◌≡◌, refl}
use mathlib.Core.Option
use vortexmq.Int.{pos}
use vortexmq.Text.{codes}
use vortexmq.Dlq
use vortexmq.Broker.{Broker}
use vortexmq.Api.{
  Request, purged, entries, answers, is_blank, trim_prefix, cons_part, split_path, path_parts,
  handle_dlq, handle_dlq_purge, cors_middleware, is,
}
use vortexmq.Api.Purge.{without_letters, handle_dlq_purge-handle_dlq}
use vortexmq.Tests.Samples.{letter}
use vortexmq.Tests.BrokerTests.{orders, broker}

abbrev one_letter : Broker ℕ
one_letter = record broker {
  topics =
      (1 ∷ [], record orders { dlq = Dlq.add letter (codes "crash") (pos 7) (Dlq.new (pos 10)) })
      ∷ [];
}

abbrev get_request : Request
get_request = record {
  method = codes "GET";
  path = [];
  topic = [];
  timeout_ms = [];
  body = some [];
}

path_run : path_parts (codes "/api/v1/topics/jobs/publish") ≡ codes "jobs" ∷ codes "publish" ∷ []
unfolding path_parts trim_prefix split_path cons_part
path_run = refl

handle_dlq_purge-handle_dlq_example :
    (b : Broker ℕ) × (n : ℕ) × (cors_middleware handle_dlq_purge get_request one_letter
      ≡ answers b 200 (purged n))
    × ((name : Bytes)
        → lookup name b.topics ≡ Option.map without_letters (lookup name one_letter.topics))
    × (cors_middleware handle_dlq get_request b ≡ answers b 200 (entries []))
unfolding is_blank is bytes_dec
handle_dlq_purge-handle_dlq_example =
    handle_dlq_purge-handle_dlq get_request get_request one_letter refl refl refl
