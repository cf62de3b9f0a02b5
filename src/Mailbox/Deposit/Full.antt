-- ===== src/Mailbox/Deposit/Full.antt =====
-- do_depositMessage where no message is put into the mailbox.
use gjworks.Common.{
  ℕ, zero, suc, ◌≤◌, ◌<◌, ◌≡◌, ◌≢◌, refl, true, false, ◌∙◌, none, some, List, [], ◌∷◌, arith,
  length, ◌+◌, ◌==◌, ltb, if◌then◌else◌,
}
use gjworks.Machine.{ok, out_of_fuel, Heap, load, load-some}
use gjworks.Machine.Chain.{Chain, Absent, find?}
use gjworks.Mailbox.State.{
  mailbox_link, node_link, message_link, blocked_link, Node, Message, Mailbox, BlockedSender, Pm,
  World, egeneric, suspend, einvalidsender, max_message_in_mailbox,
}
use gjworks.Mailbox.Lookup.{get_message_count}
use gjworks.Mailbox.Lookup.Laws.{get_message_count-eq-length}
use gjworks.Mailbox.Lookup.Senders.{is_valid_sender-eq-first_sender}
use gjworks.Mailbox.Blocked.{is_sender_blocked, get_context, save_context}
use gjworks.Mailbox.Blocked.Context.{is_sender_blocked-eq-find?, save_context-get_context}
use gjworks.Mailbox.Fetch.{Fetched, fetch_message, c_string, datacopy}
use gjworks.Mailbox.Deposit.Entry.{after_fetch, do_deposit_message-deposit_loop}
use gjworks.Mailbox.Deposit.{do_deposit_message, deposit_loop, deposit_text}

module _ (w : World) (id : ℕ) (text : List ℕ) (s : Pm) where
  -- In a mailbox with no senders the call is refused with EINVALIDSENDER, and only `err_code`
  -- changes.
  pub deposit_refused :
      (fuel : ℕ) (l : List (ℕ × Mailbox)) (b : ℕ × Mailbox)
      → Chain s.mailboxes s.g_mailbox l
      → length l < fuel
      → find? (λ b. b.id == id) l ≡ some b
      → b.1.sender_list ≡ 0
      → deposit_text fuel w id text s ≡ ok (egeneric, record s { err_code = some einvalidsender })
  unfolding deposit_text
  deposit_refused fuel l b ch lt found e = ground (
    arith,
    is_valid_sender-eq-first_sender s.nodes s.mailboxes fuel s.g_mailbox id (w.mp_pid s.who_p) l b
        [] ch found e lt,
  )

  -- The loop over the mailboxes never gets past the first one: if that has another id, the call
  -- does not return, whatever the fuel.
  pub deposit_loop_stuck :
      (fuel p : ℕ) (b : Mailbox) (l : List (ℕ × Mailbox)) (pid : ℕ) (receivers : List ℕ)
      → Chain s.mailboxes p ((p, b) ∷ l)
      → b.id ≢ id
      → deposit_loop fuel w p id text pid receivers s ≡ out_of_fuel
  unfolding deposit_loop
  deposit_loop_stuck zero p b l pid receivers ch ne = refl
  deposit_loop_stuck (suc fuel) p b l pid receivers ch ne =
      ground (arith, load-some s.mailboxes p b, deposit_loop_stuck fuel p b l pid receivers ch ne)

  -- The branch of a full mailbox, from what its calls return.
  wait_run :
      (fuel : ℕ) (b : Mailbox) (pid : ℕ) (receivers : List ℕ) {n : ℕ} {s' : Pm}
      → s.g_mailbox ≢ 0
      → load s.mailboxes s.g_mailbox ≡ ok b
      → b.id ≡ id
      → get_message_count (suc fuel) s.messages s.mailboxes s.g_mailbox id ≡ ok n
      → save_context (suc fuel) w s.m_in s.who_p text s ≡ ok s'
      → max_message_in_mailbox ≤ n
      → deposit_loop (suc fuel) w s.g_mailbox id text pid receivers s
        ≡ ok (
          suspend,
          record s' { sigsuspended = λ q. if q == s.who_p then true else s.sigsuspended q },
        )
  unfolding deposit_loop
  wait_run fuel b pid receivers {n} {s'} nz at same count run full =
      let first : (s.g_mailbox == 0) ≡ false = ground arith in
      let here : (b.id == id) ≡ true = ground arith in
      let room : ltb n max_message_in_mailbox ≡ false = ground arith in
      rw (first, at) (rw (here, count) (rw (room, run)))

  -- The loop at a full mailbox.
  deposit_loop_full :
      (fuel : ℕ) (b : Mailbox) (l : List (ℕ × Mailbox)) (q : List (ℕ × Message))
      (c : List (ℕ × BlockedSender)) (pid : ℕ) (receivers : List ℕ)
      → Chain s.mailboxes s.g_mailbox ((s.g_mailbox, b) ∷ l)
      → b.id ≡ id
      → Chain s.messages b.message_list q
      → max_message_in_mailbox ≤ length q
      → Chain s.blocked s.g_blocked_senders c
      → length l + length q + length c + 1 < fuel
      → s.fresh ≢ 0
      → Absent s.fresh c
      → find? (λ b. b.who_p == s.who_p) c ≡ none
      → (h : Heap BlockedSender) × (g : ℕ) × (deposit_loop fuel w s.g_mailbox id text pid receivers
            s
          ≡ ok (
            suspend,
            record s {
              blocked = h;
              g_blocked_senders = g;
              fresh = s.fresh + 1;
              sigsuspended = λ q. if q == s.who_p then true else s.sigsuspended q;
            },
          ))
        × (is_sender_blocked fuel h g s.who_p ≡ ok true)
        × (get_context fuel h g s.who_p ≡ ok (some (s.m_in, text)))
  unfolding deposit_loop
  deposit_loop_full zero b l q c pid receivers ch e mch full cch lt nz away fresh =
      absurd (omega arith)
  deposit_loop_full (suc fuel) b l q c pid receivers ch e mch full cch lt nz away fresh =
      let count : get_message_count (suc fuel) s.messages s.mailboxes s.g_mailbox id
          ≡ ok (length q) =
        get_message_count-eq-length s.messages s.mailboxes (suc fuel) s.g_mailbox id
          ((s.g_mailbox, b) ∷ l) (s.g_mailbox, b) q ch (ground arith) mch (omega arith) in
      let (h, g, c', run, cch', longer, waits, back) =
        save_context-get_context (suc fuel) w s.m_in s.who_p text s c cch (omega arith) nz away
          fresh in
      (
        h,
        g,
        wait_run fuel b pid receivers ch.1 (load-some s.mailboxes _ b ch.1 ch.2) e count run full,
        waits,
        back,
      )

-- A deposit by a process that has no context yet and is the first of the senders of the first mailbox,
-- with five messages or more there: the sender is suspended. The call returns SUSPEND, marks the
-- process slot, and saves a context from which getContext gives back the call and the text that was
-- fetched. Of the state only the marks, the contexts, their list, the next address of `malloc` and
-- `err_code`, as fetchMessage leaves it, change. `malloc` is taken to give new memory.
pub deposit_full :
    (fuel : ℕ) (w : World) (s : Pm) (f : Fetched) (text : List ℕ) (retval : ℕ) (receivers : List ℕ)
    (b : Mailbox) (l : List (ℕ × Mailbox)) (x : ℕ × Node) (senders : List (ℕ × Node))
    (q : List (ℕ × Message)) (c : List (ℕ × BlockedSender))
    → fetch_message w s.m_in.i3 s.m_in.i2 w.junk_text s ≡ ok f
    → c_string f.dest ≡ ok text
    → datacopy w.junk_receivers (w.copy_ints s.who_e s.m_in.p2 s.m_in.i3) w.copy_error
      ≡ ok (retval, receivers)
    → Chain s.mailboxes s.g_mailbox ((s.g_mailbox, b) ∷ l)
    → b.id ≡ s.m_in.i1
    → Chain s.nodes b.sender_list (x ∷ senders)
    → x.1.pid ≡ w.mp_pid s.who_p
    → Chain s.messages b.message_list q
    → max_message_in_mailbox ≤ length q
    → Chain s.blocked s.g_blocked_senders c
    → length l + length q + length c + 1 < fuel
    → s.fresh ≢ 0
    → Absent s.fresh c
    → find? (λ b. b.who_p == s.who_p) c ≡ none
    → (h : Heap BlockedSender) × (g : ℕ) × (do_deposit_message fuel w s
        ≡ ok (
          suspend,
          record s {
            blocked = h;
            g_blocked_senders = g;
            fresh = s.fresh + 1;
            sigsuspended = λ q. if q == s.who_p then true else s.sigsuspended q;
            err_code = f.state.err_code;
          },
        ))
      × (is_sender_blocked fuel h g s.who_p ≡ ok true)
      × (get_context fuel h g s.who_p ≡ ok (some (s.m_in, text)))
deposit_full fuel w s f text retval receivers b l x senders q c fetch string copied mch named nch
      first qch full cch lt nz away fresh =
    let new_call : is_sender_blocked fuel s.blocked s.g_blocked_senders s.who_p ≡ ok false =
      is_sender_blocked-eq-find? s.blocked fuel s.g_blocked_senders s.who_p c cch
        (omega (arith, lt))
      ∙ rw (fresh) refl in
    let entry =
      do_deposit_message-deposit_loop fuel w s f text retval receivers b l x senders new_call fetch
        string copied mch named nch first (omega (arith, lt)) in
    let (h, g, run, waits, back) =
      deposit_loop_full w s.m_in.i1 text (after_fetch s f) fuel b l q c (w.mp_pid s.who_p) receivers
        mch named qch full cch lt nz away fresh in
    (h, g, entry ∙ run, waits, back)
