-- ===== src/Mailbox/Deposit/Room.antt =====
-- do_depositMessage into a mailbox with room.
use gjworks.Common.{
  ℕ, zero, suc, ◌≤◌, ◌<◌, ◌≡◌, ◌≢◌, refl, ap, ◌∙◌, true, false, some, List, [], ◌∷◌, arith, length,
  ◌+◌, ◌==◌, ltb,
}
use gjworks.Machine.{ok, Heap, load-some, store-some, update}
use gjworks.Machine.Chain.{
  Chain, Absent, snoc, Attached, attach-Attached, Attached-Chain, last, last-Absent,
}
use gjworks.Mailbox.State.{
  mailbox_link, node_link, message_link, Node, Message, Mailbox, Pm, World, unspecified, max_nodes,
  max_message_in_mailbox,
}
use gjworks.Mailbox.Lookup.{get_message_count}
use gjworks.Mailbox.Lookup.Laws.{get_message_count-eq-length}
use gjworks.Mailbox.Nodes.Append.{pids}
use gjworks.Mailbox.Deposit.{do_deposit_message, deposit_loop, enqueue}
use gjworks.Mailbox.Fetch.{Fetched, fetch_message, c_string, datacopy}
use gjworks.Mailbox.Blocked.{is_sender_blocked}
use gjworks.Mailbox.Deposit.Entry.{after_fetch, do_deposit_message-deposit_loop}
use gjworks.Mailbox.Deposit.Filled.{fill_message-Filled}
use gjworks.Mailbox.Deposit.Receivers.{accepted}

-- What a successful deposit leaves in the mailbox at `p`, whose messages were `q`: the new message
-- stands behind them, at the address that `malloc` gave, with the text, the sender and the receivers.
pub record Deposited (p : ℕ) (b : Mailbox) (q : List (ℕ × Message)) (text : List ℕ) (pid : ℕ)
    (xs : List ℕ) (s s' : Pm) : Type 0 where
  pub head : ℕ
  pub mailbox : s'.mailboxes p ≡ some (record b { message_list = head })
  pub msg : Message
  pub chain : Chain s'.messages head (snoc q s.fresh msg)
  pub same_text : msg.text ≡ text
  pub same_sender : msg.sender ≡ pid
  pub list : List (ℕ × Node)
  pub receivers : Chain s'.nodes msg.receiver_list list
  pub listed : pids list ≡ xs

enqueue-Deposited :
    (fuel : ℕ) (w : World) (p : ℕ) (text : List ℕ) (pid : ℕ) (receivers : List ℕ) (s : Pm)
    (b : Mailbox) (q : List (ℕ × Message))
    → p ≢ 0
    → s.mailboxes p ≡ some b
    → Chain s.messages b.message_list q
    → length q < fuel
    → s.fresh ≢ 0
    → Absent s.fresh q
    → (w.junk_message s.fresh).receiver_list ≡ 0
    → max_nodes ≤ length receivers
    → (s' : Pm) × (enqueue fuel w p text pid receivers s ≡ ok s')
      × Deposited p b q text pid (accepted max_nodes receivers) s s'
unfolding enqueue snoc
enqueue-Deposited fuel w p text pid receivers s b [] nz at ch lt fz away none_yet enough =
    let m = s.fresh in
    let b' = record b { message_list = m } in
    let s₁ = record s {
      mailboxes = update s.mailboxes p (some b');
      messages = update s.messages m (some (w.junk_message m));
      fresh = m + 1;
    } in
    let (s', run, f) =
      fill_message-Filled m text pid receivers s₁ (w.junk_message m) fz (omega arith) (ground arith)
        none_yet enough in
    let empty : (b.message_list == 0) ≡ true = ground arith in
    (
      s',
      rw (load-some s.mailboxes p b nz at, empty, store-some s.mailboxes p b b' nz at, run),
      record {
        head = m;
        mailbox = ap (λ (h : Heap Mailbox). h p) f.mailboxes ∙ ground arith;
        chain = (refl, fz, f.at, tt, f.at_end);
        same_text = f.same_text;
        msg = f.msg;
        same_sender = f.same_sender;
        list = f.list;
        receivers = f.receivers;
        listed = f.listed;
      },
    )
enqueue-Deposited fuel w p text pid receivers s b (x ∷ l) nz at ch lt fz away none_yet enough =
    let m = s.fresh in
    let (h, run₁, at₁) =
      attach-Attached fuel s.messages b.message_list x l m (w.junk_message m) ch (omega arith)
        away in
    let s₁ = record s { messages = h; fresh = m + 1 } in
    let (s', run, f) =
      fill_message-Filled m text pid receivers s₁ (w.junk_message m) fz (omega arith) at₁.new
        none_yet enough in
    let linked : Attached s.messages s'.messages x l m f.msg = record {
      new = f.at;
      linked = f.others (last x l).0 (last-Absent x l m away) ∙ at₁.linked;
      kept = λ q ne ne'. f.others q ne ∙ at₁.kept q ne ne';
    } in
    let some_there : (b.message_list == 0) ≡ false = ground (arith, ch.0, ch.1) in
    (
      s',
      rw (load-some s.mailboxes p b nz at, some_there, run₁, run),
      record {
        head = b.message_list;
        mailbox = ap (λ (h : Heap Mailbox). h p) f.mailboxes ∙ at;
        chain =
            Attached-Chain s.messages s'.messages b.message_list x l m f.msg ch fz away f.at_end
              linked;
        same_text = f.same_text;
        msg = f.msg;
        same_sender = f.same_sender;
        list = f.list;
        receivers = f.receivers;
        listed = f.listed;
      },
    )

deposit_loop_room :
    (fuel : ℕ) (w : World) (id : ℕ) (text : List ℕ) (pid : ℕ) (receivers : List ℕ) (s : Pm)
    (b : Mailbox) (l : List (ℕ × Mailbox)) (q : List (ℕ × Message))
    → Chain s.mailboxes s.g_mailbox ((s.g_mailbox, b) ∷ l)
    → b.id ≡ id
    → Chain s.messages b.message_list q
    → length q < max_message_in_mailbox
    → length l + length q + 1 < fuel
    → s.fresh ≢ 0
    → Absent s.fresh q
    → (w.junk_message s.fresh).receiver_list ≡ 0
    → max_nodes ≤ length receivers
    → (s' : Pm) × (deposit_loop fuel w s.g_mailbox id text pid receivers s ≡ ok (unspecified, s'))
      × Deposited s.g_mailbox b q text pid (accepted max_nodes receivers) s s'
unfolding deposit_loop
deposit_loop_room zero w id text pid receivers s b l q ch e mch few lt fz away none_yet enough =
    absurd (omega arith)
deposit_loop_room (suc fuel) w id text pid receivers s b l q ch e mch few lt fz away none_yet
      enough =
    let (s', run, d) =
      enqueue-Deposited (suc fuel) w s.g_mailbox text pid receivers s b q ch.1 ch.2 mch
        (omega arith) fz away none_yet enough in
    let first : (s.g_mailbox == 0) ≡ false = ground (arith, ch.1) in
    let here : (b.id == id) ≡ true = ground arith in
    let count : get_message_count (suc fuel) s.messages s.mailboxes s.g_mailbox id ≡ ok (length q) =
      get_message_count-eq-length s.messages s.mailboxes (suc fuel) s.g_mailbox id
        ((s.g_mailbox, b) ∷ l) (s.g_mailbox, b) q ch (ground arith) mch (omega arith) in
    let room : ltb (length q) max_message_in_mailbox ≡ true = ground arith in
    (
      s',
      rw (first, load-some s.mailboxes s.g_mailbox b ch.1 ch.2) (rw (here, count) (rw (room, run))),
      d,
    )

-- A deposit that is not brought back from a context, by a process that is the first of the senders
-- of the first mailbox, with less than five messages there and a new message whose list of receivers
-- `malloc` happens to leave NULL: the new message stands behind the others with the text that was
-- fetched, its sender and its receivers up to the first that is not positive. The call runs past its
-- end, with nothing in particular for its result. `malloc` is taken to give new memory, and the array
-- of the receivers to have its five places.
pub deposit_room :
    (fuel : ℕ) (w : World) (s : Pm) (f : Fetched) (text : List ℕ) (retval : ℕ) (receivers : List ℕ)
    (b : Mailbox) (l : List (ℕ × Mailbox)) (x : ℕ × Node) (senders : List (ℕ × Node))
    (q : List (ℕ × Message))
    → is_sender_blocked fuel s.blocked s.g_blocked_senders s.who_p ≡ ok false
    → fetch_message w s.m_in.i3 s.m_in.i2 w.junk_text s ≡ ok f
    → c_string f.dest ≡ ok text
    → datacopy w.junk_receivers (w.copy_ints s.who_e s.m_in.p2 s.m_in.i3) w.copy_error
      ≡ ok (retval, receivers)
    → Chain s.mailboxes s.g_mailbox ((s.g_mailbox, b) ∷ l)
    → b.id ≡ s.m_in.i1
    → Chain s.nodes b.sender_list (x ∷ senders)
    → x.1.pid ≡ w.mp_pid s.who_p
    → Chain s.messages b.message_list q
    → length q < max_message_in_mailbox
    → length l + length q + 1 < fuel
    → s.fresh ≢ 0
    → Absent s.fresh q
    → (w.junk_message s.fresh).receiver_list ≡ 0
    → max_nodes ≤ length receivers
    → (s' : Pm) × (do_deposit_message fuel w s ≡ ok (unspecified, s'))
      × Deposited s.g_mailbox b q text (w.mp_pid s.who_p) (accepted max_nodes receivers) s s'
deposit_room fuel w s f text retval receivers b l x senders q new_call fetch string copied mch named
      nch first qch few lt fz away none_yet enough =
    let entry =
      do_deposit_message-deposit_loop fuel w s f text retval receivers b l x senders new_call fetch
        string copied mch named nch first (omega (arith, lt)) in
    let (s', run, d) =
      deposit_loop_room fuel w s.m_in.i1 text (w.mp_pid s.who_p) receivers (after_fetch s f) b l q
        mch named qch few lt fz away none_yet enough in
    (
      s',
      entry ∙ run,
      record {
        head = d.head;
        mailbox = d.mailbox;
        msg = d.msg;
        chain = d.chain;
        same_text = d.same_text;
        same_sender = d.same_sender;
        list = d.list;
        receivers = d.receivers;
        listed = d.listed;
      },
    )
