-- ===== src/Mailbox/Retrieve/Kept.antt =====
-- What retrieveMessage never changes.
use gjworks.Common.{ℕ, zero, suc, ◌≡◌, ◌≢◌, none, some, arith, inl, inr}
use gjworks.Machine.{ok, Heap, load, Run-cases}
use gjworks.Mailbox.State.{Node, Message, Pm, World}
use gjworks.Mailbox.Retrieve.{take_receiver, deliver_copy, retrieve_loop, retrieve_message}

take_receiver_inhabited :
    (fuel : ℕ) (nodes : Heap Node) (r previous pid : ℕ) (nodes' : Heap Node)
    → take_receiver fuel nodes r previous pid ≡ ok (some nodes')
    → r ≢ 0
unfolding take_receiver
take_receiver_inhabited zero nodes r previous pid nodes' e = cc
take_receiver_inhabited (suc fuel) nodes r previous pid nodes' e = ground arith

-- What stays: every message that was there, and every context.
pub record Kept (s s' : Pm) : Type 0 where
  pub messages : (q : ℕ) → q ≢ s.fresh → s'.messages q ≡ s.messages q
  pub blocked : s'.blocked ≡ s.blocked
  pub mailboxes : s'.mailboxes ≡ s.mailboxes

deliver_copy-Kept :
    (fuel : ℕ) (w : World) (id m previous : ℕ) (msg : Message) (nodes : Heap Node) (s : Pm) (a : ℕ)
    (s' : Pm)
    → msg.receiver_list ≢ 0
    → deliver_copy fuel w id m previous msg nodes s ≡ ok (a, s')
    → Kept s s'
unfolding deliver_copy
deliver_copy-Kept fuel w id m previous msg nodes s a s' some_left e = record {
  messages = λ q ne. ground arith;
  blocked = ground arith;
  mailboxes = ground arith;
}

retrieve_loop-Kept :
    (fuel : ℕ) (w : World) (id pid m previous tmp : ℕ) (s : Pm) (a : ℕ) (s' : Pm)
    → retrieve_loop fuel w id pid m previous tmp s ≡ ok (a, s')
    → Kept s s'
unfolding retrieve_loop
retrieve_loop-Kept zero w id pid m previous tmp s a s' e = cc
retrieve_loop-Kept (suc fuel) w id pid m previous tmp s a s' e =
    elim (Run-cases (load s.messages m)) [
      | inr failed ↦ record {
        messages = λ q ne. ground arith;
        blocked = ground arith;
        mailboxes = ground arith;
      }
      | inl (msg, loaded) ↦
          let ih = λ (e : retrieve_loop fuel w id pid msg.next m tmp s ≡ ok (a, s')).
            retrieve_loop-Kept fuel w id pid msg.next m tmp s a s' e in
          elim (Run-cases (take_receiver (suc fuel) s.nodes msg.receiver_list 0 pid)) [
            | inr failed ↦ record {
              messages = λ q ne. ground arith;
              blocked = ground arith;
              mailboxes = ground arith;
            }
            | inl (none, absent) ↦ record {
              messages = λ q ne. ground (
                arith,
                λ (e : retrieve_loop fuel w id pid msg.next m tmp s ≡ ok (a, s')).
                    (ih e).messages q ne,
              );
              blocked = ground (arith, ih);
              mailboxes = ground (arith, ih);
            }
            | inl (some nodes, found) ↦
                let left =
                  take_receiver_inhabited (suc fuel) s.nodes msg.receiver_list 0 pid nodes found in
                let copy = deliver_copy-Kept (suc fuel) w id m previous msg nodes s a s' left in
                record {
                  messages = λ q ne. ground (
                    arith,
                    λ (e : deliver_copy (suc fuel) w id m previous msg nodes s ≡ ok (a, s')).
                        (copy e).messages q ne,
                  );
                  blocked = ground (arith, copy);
                  mailboxes = ground (arith, copy);
                }
          ]
    ]

-- When retrieveMessage returns, every message that the process manager held is still there with all
-- its fields, and no context has changed: a message is never dropped, and no sender that waits for
-- room is ever unblocked.
pub retrieve_message-Kept :
    (fuel : ℕ) (w : World) (p pid : ℕ) (s : Pm) (a : ℕ) (s' : Pm)
    → retrieve_message fuel w p pid s ≡ ok (a, s')
    → Kept s s'
unfolding retrieve_message
retrieve_message-Kept fuel w p pid s a s' e = elim (Run-cases (load s.mailboxes p)) [
  | inr failed ↦ record {
    messages = λ q ne. ground arith;
    blocked = ground arith;
    mailboxes = ground arith;
  }
  | inl (b, loaded) ↦
      retrieve_loop-Kept fuel w b.id pid b.message_list 0 w.junk_pointer s a s' (ground arith)
]
