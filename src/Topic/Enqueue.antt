-- ===== src/Topic/Enqueue.antt =====
-- internal/queue/topic.go: Publish and PublishFront on an open topic.
use vortexmq.Prelude.{Bool, false, true, if-false, ◌≡◌, ap, ◌∙◌}
use vortexmq.Ring
use vortexmq.Ring.Refine.{Refines, push-Refines, push_front-Refines}
use vortexmq.Deque.{Deque, do_push, do_push_front}
use vortexmq.Message.{Message}
use vortexmq.Topic
use vortexmq.Topic.{Topic, put_ring, pushed}

module _ (t : Topic) (d : Deque Message) (f : Refines t.ring d) (open_topic : t.closed ≡ false)
    (open_ring : d.closed ≡ false) where
  pub publish-accepts :
      (m : Message)
      → Topic.publish m t ≡ (Topic.count_published m (put_ring (Ring.push m t.ring).0 t), true)
  unfolding Topic.publish pushed do_push
  publish-accepts m =
      if-false t.closed _ _ open_topic
      ∙ ap (λ ok. pushed m ((Ring.push m t.ring).0, ok) t)
          ((push-Refines m t.ring d f).1
            ∙ ap (λ (p : Deque Message × Bool). p.1) (if-false d.closed _ _ open_ring))

  pub publish_front-accepts :
      (m : Message)
      → Topic.publish_front m t
        ≡ (Topic.count_published m (put_ring (Ring.push_front m t.ring).0 t), true)
  unfolding Topic.publish_front pushed do_push_front
  publish_front-accepts m =
      if-false t.closed _ _ open_topic
      ∙ ap (λ ok. pushed m ((Ring.push_front m t.ring).0, ok) t)
          ((push_front-Refines m t.ring d f).1
            ∙ ap (λ (p : Deque Message × Bool). p.1) (if-false d.closed _ _ open_ring))
