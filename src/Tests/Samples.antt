-- ===== src/Tests/Samples.antt =====
-- Messages for the tests.
use vortexmq.Prelude.{none, []}
use vortexmq.Int.{pos}
use vortexmq.Text.{codes}
use vortexmq.Message.{Message}

abbrev pub letter : Message
letter = record {
  id = codes "1-1-00ff";
  topic = codes "orders";
  payload = none;
  headers = [];
  priority = 0;
  timestamp = pos 5;
  deliver_at = pos 5;
  retry_count = pos 0;
  max_retries = pos 3;
  consumer_id = [];
  ack_deadline = pos 0;
  failure_cause = [];
}

abbrev pub other : Message
other = record letter { id = codes "1-2-00ff" }
