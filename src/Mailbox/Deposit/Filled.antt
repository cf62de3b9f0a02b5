-- ===== src/Mailbox/Deposit/Filled.antt =====
-- do_depositMessage: the new message is filled in.
use gjworks.Common.{ℕ, ◌≤◌, ◌≡◌, ◌≢◌, refl, ap, ◌∙◌, some, List, arith, length}
use gjworks.Machine.{ok, load-some, store-some, update}
use gjworks.Machine.Chain.{Chain}
use gjworks.Mailbox.State.{mailbox_link, node_link, message_link, Node, Message, Pm, max_nodes}
use gjworks.Mailbox.Nodes.Append.{pids}
use gjworks.Mailbox.Deposit.{fill_message, add_receivers}
use gjworks.Mailbox.Deposit.Receivers.{accepted, add_receivers-Listed}

-- The message that was filled in at `m`.
pub record Filled (m : ℕ) (text : List ℕ) (pid : ℕ) (xs : List ℕ) (s s' : Pm) : Type 0 where
  pub msg : Message
  pub at : s'.messages m ≡ some msg
  pub same_text : msg.text ≡ text
  pub same_sender : msg.sender ≡ pid
  pub at_end : msg.next ≡ 0
  pub list : List (ℕ × Node)
  pub receivers : Chain s'.nodes msg.receiver_list list
  pub listed : pids list ≡ xs
  pub others : (q : ℕ) → q ≢ m → s'.messages q ≡ s.messages q
  pub mailboxes : s'.mailboxes ≡ s.mailboxes

pub fill_message-Filled :
    (m : ℕ) (text : List ℕ) (pid : ℕ) (receivers : List ℕ) (s : Pm) (junk : Message)
    → m ≢ 0
    → s.fresh ≢ 0
    → s.messages m ≡ some junk
    → junk.receiver_list ≡ 0
    → max_nodes ≤ length receivers
    → (s' : Pm) × (fill_message m text pid receivers s ≡ ok s')
      × Filled m text pid (accepted max_nodes receivers) s s'
unfolding fill_message
fill_message-Filled m text pid receivers s junk nz fz at none_yet enough =
    let msg = record junk { text = text; sender = pid } in
    let s₁ = record s { messages = update s.messages m (some msg) } in
    let (s₂, run, b) =
      add_receivers-Listed m max_nodes receivers msg s₁ enough nz fz (ground arith) none_yet in
    let msg₂ = record msg { receiver_list = b.head } in
    let run' : add_receivers max_nodes receivers junk.receiver_list m s₁ ≡ ok s₂ =
      ap (λ r. add_receivers max_nodes receivers r m s₁) none_yet ∙ run in
    (
      record s₂ { messages = update s₂.messages m (some (record msg₂ { next = 0 })) },
      rw (
        load-some s.messages m junk nz at,
        store-some s.messages m junk msg nz at,
        run',
        load-some s₂.messages m msg₂ nz b.message,
        store-some s₂.messages m msg₂ (record msg₂ { next = 0 }) nz b.message,
      ),
      record {
        msg = record msg₂ { next = 0 };
        at = ground arith;
        same_text = refl;
        same_sender = refl;
        at_end = refl;
        list = b.list;
        receivers = b.chain;
        listed = b.listed;
        others = λ q e. ground (arith, b.others q e);
        mailboxes = b.mailboxes;
      },
    )
