-- ===== src/Ring/Refine.antt =====
-- The pushes of internal/queue/ring.go against the double-ended queue.
use mathlib.Core.Path.{subst₂}
use vortexmq.Prelude.{
  ◌*◌, ◌<◌, ◌≡◌, refl, ap, ap₂, ◌∙◌, sym, arith, inl, inr, Bool, true, false, List, [], ◌∷◌, leb,
  leb→le, leb-false→lt, Bool-cases, if-true, if-false, length, tail, add64, sub64, drop_last,
  drop_last-snoc, length-append,
}
use vortexmq.Deque.{Deque, room, room_front, do_push, do_push_front}
use vortexmq.Ring.{
  Ring, is_full, make_room, make_room_front, store, store_front, push, push_front, grow,
  max_capacity,
}
use vortexmq.Ring.Holds.{
  Holds, count_lem, store-Holds, store_front-Holds, skip-Holds, shorten-Holds,
}
use vortexmq.Ring.Grow.{grow-Holds, capacity-grow, closed-grow}

pub record Refines {ℓ} {A : Type ℓ} (r : Ring A) (d : Deque A) : Type ℓ where
  pub holds : Holds r d.items
  pub capacity_eq : r.capacity ≡ d.capacity
  pub closed_eq : r.closed ≡ d.closed

module _ {ℓ} {A : Type ℓ} where
  cons_of_pos : (q : List A) → 0 < length q → (x : A) × (q ≡ x ∷ tail q)
  cons_of_pos [] h = absurd (omega arith)
  cons_of_pos (x ∷ q) h = (x, refl)

  module _ (r : Ring A) where
    make_room-keep : is_full r ≡ false → make_room r ≡ r
    unfolding make_room
    make_room-keep e = rw e

    make_room-grow : is_full r ≡ true → leb max_capacity r.capacity ≡ false → make_room r ≡ grow r
    unfolding make_room
    make_room-grow e f = rw (e, f)

    make_room-drop :
        is_full r ≡ true
        → leb max_capacity r.capacity ≡ true
        → make_room r ≡ record r { head = add64 r.head 1 }
    unfolding make_room
    make_room-drop e f = rw (e, f)

    make_room_front-keep : is_full r ≡ false → make_room_front r ≡ r
    unfolding make_room_front
    make_room_front-keep e = rw e

    make_room_front-grow :
        is_full r ≡ true → leb max_capacity r.capacity ≡ false → make_room_front r ≡ grow r
    unfolding make_room_front
    make_room_front-grow e f = rw (e, f)

    make_room_front-drop :
        is_full r ≡ true
        → leb max_capacity r.capacity ≡ true
        → make_room_front r ≡ record r { tail = sub64 r.tail 1 }
    unfolding make_room_front
    make_room_front-drop e f = rw (e, f)

  module _ (r : Ring A) (d : Deque A) (f : Refines r d) where
    full_eq : is_full r ≡ leb d.capacity (length d.items)
    full_eq = ap₂ leb f.capacity_eq (count_lem r d.items f.holds)

    largest_eq : leb max_capacity r.capacity ≡ leb max_capacity d.capacity
    largest_eq = ap (leb max_capacity) f.capacity_eq

    filled : leb d.capacity (length d.items) ≡ true → length d.items ≡ d.capacity
    filled full =
        omega (arith, leb→le d.capacity (length d.items) full, f.holds.fits, f.capacity_eq)

    nonempty : leb d.capacity (length d.items) ≡ true → 0 < length d.items
    nonempty full = omega (arith, filled full, f.capacity_eq, f.holds.shape.capacity_pos)

    -- A ring with room for one more element than the queue that it holds.
    pub HasRoom : Ring A → Deque A → Type ℓ
    HasRoom r' d' = Refines r' d' × (length d'.items < d'.capacity)

    stays : leb d.capacity (length d.items) ≡ false → HasRoom r d
    unfolding HasRoom
    stays free = (f, leb-false→lt d.capacity (length d.items) free)

    drop-HasRoom :
        leb d.capacity (length d.items) ≡ true
        → HasRoom (record r { head = add64 r.head 1 }) (record d { items = tail d.items })
    unfolding HasRoom
    drop-HasRoom full =
        let (x, e) = cons_of_pos d.items (nonempty full) in
        (
          record {
            holds = skip-Holds r d.items f.holds x (tail d.items) e;
            capacity_eq = f.capacity_eq;
            closed_eq = f.closed_eq;
          },
          omega (arith, ap length e, filled full),
        )

    drop_last-HasRoom :
        leb d.capacity (length d.items) ≡ true
        → HasRoom (record r { tail = sub64 r.tail 1 }) (record d { items = drop_last d.items })
    unfolding HasRoom
    drop_last-HasRoom full =
        let (x, e) = drop_last-snoc d.items (nonempty full) in
        (
          record {
            holds = shorten-Holds r d.items f.holds x (drop_last d.items) e;
            capacity_eq = f.capacity_eq;
            closed_eq = f.closed_eq;
          },
          omega (arith, ap length e, filled full, length-append (drop_last d.items) (x ∷ [])),
        )

    grow-HasRoom :
        leb d.capacity (length d.items) ≡ true
        → leb max_capacity d.capacity ≡ false
        → HasRoom (grow r) (record d { capacity = d.capacity * 2 })
    unfolding HasRoom
    grow-HasRoom full low = (
      record {
        holds = grow-Holds r d.items f.holds small;
        capacity_eq = omega (arith, capacity-grow r d.items f.holds small, f.capacity_eq);
        closed_eq = closed-grow r d.items f.holds small ∙ f.closed_eq;
      },
      omega (arith, filled full, nonempty full),
    )
      where
        small : r.capacity < max_capacity
        small = omega (arith, f.capacity_eq, leb-false→lt max_capacity d.capacity low)

    room-HasRoom : HasRoom (make_room r) (room d)
    unfolding room
    room-HasRoom = elim (Bool-cases (leb d.capacity (length d.items))) [
      | inr free ↦ rw (make_room-keep r (full_eq ∙ free), free) (stays free)
      | inl full ↦ elim (Bool-cases (leb max_capacity d.capacity)) [
        | inl top ↦
            rw (make_room-drop r (full_eq ∙ full) (largest_eq ∙ top), full, top) (drop-HasRoom full)
        | inr low ↦
            rw (make_room-grow r (full_eq ∙ full) (largest_eq ∙ low), full, low)
              (grow-HasRoom full low)
      ]
    ]

    room_front-HasRoom : HasRoom (make_room_front r) (room_front d)
    unfolding room_front
    room_front-HasRoom = elim (Bool-cases (leb d.capacity (length d.items))) [
      | inr free ↦ rw (make_room_front-keep r (full_eq ∙ free), free) (stays free)
      | inl full ↦ elim (Bool-cases (leb max_capacity d.capacity)) [
        | inl top ↦
            rw (make_room_front-drop r (full_eq ∙ full) (largest_eq ∙ top), full, top)
              (drop_last-HasRoom full)
        | inr low ↦
            rw (make_room_front-grow r (full_eq ∙ full) (largest_eq ∙ low), full, low)
              (grow-HasRoom full low)
      ]
    ]

closed-room {ℓ} : {A : Type ℓ} (d : Deque A) → (room d).closed ≡ d.closed
unfolding room
closed-room d = ground arith

closed-room_front {ℓ} : {A : Type ℓ} (d : Deque A) → (room_front d).closed ≡ d.closed
unfolding room_front
closed-room_front d = ground arith

module _ {ℓ} {A : Type ℓ} (x : A) (r : Ring A) where
  pub push-shut : r.closed ≡ true → push x r ≡ (r, false)
  unfolding push
  push-shut e = if-true r.closed _ _ e

  pub push-live : r.closed ≡ false → push x r ≡ (store x (make_room r), true)
  unfolding push
  push-live e = if-false r.closed _ _ e

  pub push_front-shut : r.closed ≡ true → push_front x r ≡ (r, false)
  unfolding push_front
  push_front-shut e = if-true r.closed _ _ e

  pub push_front-live :
      r.closed ≡ false → push_front x r ≡ (store_front x (make_room_front r), true)
  unfolding push_front
  push_front-live e = if-false r.closed _ _ e

module _ {ℓ} {A : Type ℓ} (x : A) (r : Ring A) (d : Deque A) (f : Refines r d) where
  abbrev AgreesOn : Ring A × Bool → Deque A × Bool → Type ℓ
  AgreesOn p e = Refines p.0 e.0 × (p.1 ≡ e.1)

  -- `Push` does on the ring what the queue's push does, and answers the same.
  pub push-Refines : Refines (push x r).0 (do_push x d).0 × ((push x r).1 ≡ (do_push x d).1)
  unfolding do_push store HasRoom
  push-Refines = elim (Bool-cases d.closed) [
    | inl shut ↦
        subst₂ AgreesOn (sym (push-shut x r (f.closed_eq ∙ shut))) (sym (if-true d.closed _ _ shut))
          (f, refl)
    | inr live ↦
        subst₂ AgreesOn (sym (push-live x r (f.closed_eq ∙ live)))
          (sym (if-false d.closed _ _ live))
          (
            record {
              holds =
                  store-Holds (make_room r) (room d).items roomy.0.holds x
                    (omega (arith, roomy.1, roomy.0.capacity_eq));
              capacity_eq = roomy.0.capacity_eq;
              closed_eq = roomy.0.closed_eq ∙ closed-room d;
            },
            refl,
          )
  ]
    where
      roomy : HasRoom r d f (make_room r) (room d)
      roomy = room-HasRoom r d f

  -- `PushFront` does on the ring what the queue's push at the front does, and answers the same.
  pub push_front-Refines :
      Refines (push_front x r).0 (do_push_front x d).0
      × ((push_front x r).1 ≡ (do_push_front x d).1)
  unfolding do_push_front store_front HasRoom
  push_front-Refines = elim (Bool-cases d.closed) [
    | inl shut ↦
        subst₂ AgreesOn (sym (push_front-shut x r (f.closed_eq ∙ shut)))
          (sym (if-true d.closed _ _ shut)) (f, refl)
    | inr live ↦
        subst₂ AgreesOn (sym (push_front-live x r (f.closed_eq ∙ live)))
          (sym (if-false d.closed _ _ live))
          (
            record {
              holds =
                  store_front-Holds (make_room_front r) (room_front d).items roomy.0.holds x
                    (omega (arith, roomy.1, roomy.0.capacity_eq));
              capacity_eq = roomy.0.capacity_eq;
              closed_eq = roomy.0.closed_eq ∙ closed-room_front d;
            },
            refl,
          )
  ]
    where
      roomy : HasRoom r d f (make_room_front r) (room_front d)
      roomy = room_front-HasRoom r d f
