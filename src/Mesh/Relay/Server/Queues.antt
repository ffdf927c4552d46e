-- ===== src/Mesh/Relay/Server/Queues.antt =====
-- The write queue of a connection keeps the newest frames.
use zattera_dev.Base.{
  suc, ◌+◌, ◌-◌, ◌≤◌, ◌<◌, ◌≡◌, sym, ap, ◌∙◌, arith, false, List, [], ◌∷◌, ◌++◌, length, drop, ltb,
  Bool-cases, inl, inr, length-append, length-drop, drop_add, drop-append, subst, if_false,
}
use zattera_dev.Mesh.Relay.Server.{
  Framed, RelayConn, write_queue_depth, try_send, enqueue_loop, enqueue,
}
use mathlib.Core.List.{append_assoc, append-nil}

-- The last `write_queue_depth` frames.
abbrev pub newest : List Framed → List Framed
newest fs = drop (length fs - write_queue_depth) fs

enqueue_room :
    (f : Framed) (out : List Framed)
    → length out < write_queue_depth
    → enqueue_loop 2 f out ≡ out ++ (f ∷ [])
unfolding enqueue_loop try_send
enqueue_room f out h = ground arith

enqueue_full :
    (f x : Framed) (out : List Framed)
    → length (x ∷ out) ≡ write_queue_depth
    → enqueue_loop 2 f (x ∷ out) ≡ out ++ (f ∷ [])
unfolding enqueue_loop try_send
enqueue_full f x out h = ground arith

-- Within the bound, nothing is old.
newest_short : (fs : List Framed) → length fs ≤ write_queue_depth → newest fs ≡ fs
newest_short fs h =
    let none_over : length fs - write_queue_depth ≡ 0 = omega arith in ap (λ n. drop n fs) none_over

enqueue_loop_lem :
    (f : Framed) (out : List Framed)
    → length out ≤ write_queue_depth
    → enqueue_loop 2 f out ≡ newest (out ++ (f ∷ []))
enqueue_loop_lem f [] h =
    enqueue_room f [] (omega arith) ∙ sym (newest_short (f ∷ []) (omega arith))
enqueue_loop_lem f (x ∷ xs) h = elim (Bool-cases (ltb (suc (length xs)) write_queue_depth)) [
  | inl e ↦
      let room : length (x ∷ xs) < write_queue_depth = ground arith in
      enqueue_room f (x ∷ xs) room
      ∙ sym (newest_short _ (omega (arith, room, length-append (x ∷ xs) (f ∷ []))))
  | inr e ↦
      let full : length (x ∷ xs) ≡ write_queue_depth = ground arith in
      let over : length ((x ∷ xs) ++ (f ∷ [])) - write_queue_depth ≡ 1 =
        omega (arith, full, length-append (x ∷ xs) (f ∷ [])) in
      enqueue_full f x xs full ∙ ap (λ n. drop n ((x ∷ xs) ++ (f ∷ []))) (sym over)
]

-- What a queue has forgotten makes no difference to what it keeps later.
newest-newest : (fs gs : List Framed) → newest (newest fs ++ gs) ≡ newest (fs ++ gs)
newest-newest fs gs =
    let a = length fs - write_queue_depth in
    let joined = drop-append a fs gs (omega arith) in
    let sizes : a + (length (newest fs ++ gs) - write_queue_depth)
        ≡ length (fs ++ gs) - write_queue_depth =
      omega (arith, length-append (newest fs) gs, length-append fs gs, length-drop a fs) in
    ap (drop (length (newest fs ++ gs) - write_queue_depth)) (sym joined)
    ∙ sym (drop_add a _ (fs ++ gs))
    ∙ ap (λ n. drop n (fs ++ gs)) sizes

length-newest : (fs : List Framed) → length (newest fs) ≤ write_queue_depth
length-newest fs = omega (arith, length-drop (length fs - write_queue_depth) fs)

enqueue_open :
    (f : Framed) (rc : RelayConn)
    → length rc.out ≤ write_queue_depth
    → rc.closed ≡ false
    → enqueue f rc ≡ record rc { out = newest (rc.out ++ (f ∷ [])) }
unfolding enqueue
enqueue_open f rc h e =
    if_false rc.closed _ _ e ∙ ap (λ q. record rc { out = q }) (enqueue_loop_lem f rc.out h)

abbrev pub enqueue_all : List Framed → RelayConn → RelayConn
enqueue_all [] rc = rc
enqueue_all (f ∷ fs) rc = enqueue_all fs (enqueue f rc)

-- The frames queued on an open connection whose queue is not over its bound leave it open, with the
-- newest 256 of what stood in the queue and of the frames, in their order.
pub enqueue_all_lem :
    (fs : List Framed) (rc : RelayConn)
    → length rc.out ≤ write_queue_depth
    → rc.closed ≡ false
    → ((enqueue_all fs rc).out ≡ newest (rc.out ++ fs))
      × (length (enqueue_all fs rc).out ≤ write_queue_depth)
      × ((enqueue_all fs rc).closed ≡ false)
enqueue_all_lem [] rc h e = (sym (ap newest (append-nil rc.out) ∙ newest_short rc.out h), h, e)
enqueue_all_lem (f ∷ fs) rc h e =
    let next : RelayConn = record rc { out = newest (rc.out ++ (f ∷ [])) } in
    let rest = enqueue_all_lem fs next (length-newest (rc.out ++ (f ∷ []))) e in
    let queued =
      rest.0
      ∙ newest-newest (rc.out ++ (f ∷ [])) fs
      ∙ ap newest (append_assoc rc.out (f ∷ []) fs) in
    subst
      (λ c.
        ((enqueue_all fs c).out ≡ newest (rc.out ++ (f ∷ fs)))
        × (length (enqueue_all fs c).out ≤ write_queue_depth)
        × ((enqueue_all fs c).closed ≡ false))
      (sym (enqueue_open f rc h e)) (queued, rest.1, rest.2)
