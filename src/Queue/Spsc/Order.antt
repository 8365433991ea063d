-- ===== src/Queue/Spsc/Order.antt =====
-- The invariant of the two threads, and the order of the packets.
use mathlib.Core.List.{append_assoc}
use axio_emulator.Prelude.{ℕ, ◌-◌, ◌<◌, ◌≡◌, refl, sym, ap, ◌∙◌, ◌≢◌, [], ◌∷◌, ◌++◌, get_or, arith}
use axio_emulator.Queue.{ws_queue_size, next_index}
use axio_emulator.Queue.Refine.{used, contents, next_index-mod}
use axio_emulator.Queue.Spsc.{
  System, write_slot, publish_tail, publish_head, Step, Reach, outside, checked, written, away,
  ready, loaded, full, check, write, publish, empty, find, load, take, here, next,
}
use axio_emulator.Queue.Spsc.Known.{
  ProducerOk, ConsumerOk, Inv, start-Inv, publish-contents, take-contents, write-contents,
  ConsumerOk-keep, ProducerOk-keep,
}

check-Inv :
    (s : System) (pkt : ℕ)
    → next_index s.ring.tail ≢ s.ring.head
    → Inv s
    → Inv (record s { producer = checked pkt })
unfolding ProducerOk
check-Inv s pkt free v = record {
  valid = v.valid;
  in_order = v.in_order;
  producer_ok = ground (arith, next_index-mod s.ring.tail);
  consumer_ok = v.consumer_ok;
}

write-Inv :
    (s : System) (pkt : ℕ)
    → used s.ring < ws_queue_size - 1
    → Inv s
    → Inv (record s { ring = write_slot s.ring pkt; producer = written pkt })
unfolding ProducerOk write_slot
write-Inv s pkt few v =
    let (valid', same, at_tail, at_head) = write-contents s.ring pkt v.valid few in
    record {
      valid = valid';
      in_order = v.in_order ∙ ap (◌++◌ s.received) (sym same);
      producer_ok = (few, at_tail);
      consumer_ok =
          ConsumerOk-keep s.consumer s.ring (write_slot s.ring pkt) (omega arith) at_head
            v.consumer_ok;
    }

publish-Inv :
    (s : System) (pkt : ℕ)
    → used s.ring < ws_queue_size - 1
    → get_or s.ring.queue s.ring.tail 0 ≡ pkt
    → Inv s
    → Inv (record s { ring = publish_tail s.ring; producer = outside; sent = s.sent ++ (pkt ∷ []) })
unfolding ProducerOk publish_tail
publish-Inv s pkt few at_tail v =
    let (valid', more, one) = publish-contents s.ring pkt v.valid few at_tail in
    record {
      valid = valid';
      in_order =
          ap (λ xs. xs ++ (pkt ∷ [])) v.in_order
          ∙ append_assoc s.received (contents s.ring) (pkt ∷ [])
          ∙ ap (◌++◌ s.received) (sym more);
      producer_ok = tt;
      consumer_ok =
          ConsumerOk-keep s.consumer s.ring (publish_tail s.ring) (omega arith) (λ _. refl)
            v.consumer_ok;
    }

take-Inv :
    (s : System) (pkt : ℕ)
    → used s.ring ≢ 0
    → get_or s.ring.queue s.ring.head 0 ≡ pkt
    → Inv s
    → Inv (record s {
      ring = publish_head s.ring;
      consumer = away;
      received = s.received ++ (pkt ∷ []);
    })
unfolding ConsumerOk publish_head
take-Inv s pkt left at_head v =
    let (valid', less, one) = take-contents s.ring pkt v.valid left at_head in
    record {
      valid = valid';
      in_order =
          v.in_order
          ∙ ap (◌++◌ s.received) less
          ∙ sym (append_assoc s.received (pkt ∷ []) (contents (publish_head s.ring)));
      producer_ok =
          ProducerOk-keep s.producer s.ring (publish_head s.ring) (omega arith) refl v.producer_ok;
      consumer_ok = tt;
    }

-- Every access of either thread keeps the invariant.
Step-Inv : {s t : System} → Step s t → Inv s → Inv t
unfolding ProducerOk ConsumerOk
Step-Inv (full _ _) v = v
Step-Inv {s} (check pkt e free) v = check-Inv s pkt free v
Step-Inv {s} (write pkt e) v = write-Inv s pkt (rw e at v.producer_ok) v
Step-Inv {s} (publish pkt e) v =
    let known : ProducerOk (written pkt) s.ring = rw e at v.producer_ok in
    publish-Inv s pkt known.0 known.1 v
Step-Inv (empty _ _) v = v
Step-Inv {s} (find e left) v = record {
  valid = v.valid;
  in_order = v.in_order;
  producer_ok = v.producer_ok;
  consumer_ok = ground arith;
}
Step-Inv {s} (load e) v = record {
  valid = v.valid;
  in_order = v.in_order;
  producer_ok = v.producer_ok;
  consumer_ok = let known : ConsumerOk ready s.ring = rw e at v.consumer_ok in (known, refl);
}
Step-Inv {s} (take pkt e) v =
    let known : ConsumerOk (loaded pkt) s.ring = rw e at v.consumer_ok in
    take-Inv s pkt known.0 known.1 v

pub Reach-Inv : {s : System} → Reach s → Inv s
Reach-Inv here = start-Inv
Reach-Inv (next r st) = Step-Inv st (Reach-Inv r)

-- In every interleaving of one producer with one consumer, the pointers that `dequeue` has returned,
-- followed by those in the ring, are the pointers for which `enqueue` has returned true, in order.
pub interleaved_fifo : {s : System} → Reach s → s.sent ≡ s.received ++ contents s.ring
interleaved_fifo r = (Reach-Inv r).in_order
