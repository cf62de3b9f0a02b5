-- ===== src/Mailbox/Deposit/Entry.antt =====
-- do_depositMessage up to its loop, for a call that is not brought back from a context.
use gjworks.Common.{
  ℕ, ◌+◌, ◌<◌, ◌≡◌, refl, ap, ◌∙◌, true, false, List, ◌∷◌, arith, length, ◌==◌, ==_refl,
}
use gjworks.Machine.{ok}
use gjworks.Machine.Chain.{Chain}
use gjworks.Mailbox.State.{mailbox_link, node_link, Node, Mailbox, Pm, World}
use gjworks.Mailbox.Lookup.{is_valid_sender}
use gjworks.Mailbox.Lookup.Senders.{is_valid_sender-eq-first_sender}
use gjworks.Mailbox.Fetch.{Fetched, fetch_message, c_string, datacopy}
use gjworks.Mailbox.Fetch.State.{fetch_message-state}
use gjworks.Mailbox.Blocked.{is_sender_blocked}
use gjworks.Mailbox.Deposit.{do_deposit_message, incoming, deposit_text, deposit_loop}

-- The state after fetchMessage.
abbrev pub after_fetch : Pm → Fetched → Pm
after_fetch s f = record s { err_code = f.state.err_code }

module _ (fuel : ℕ) (w : World) (s : Pm) (f : Fetched) (text : List ℕ) (retval : ℕ)
    (receivers : List ℕ) (b : Mailbox) (l : List (ℕ × Mailbox)) (x : ℕ × Node)
    (senders : List (ℕ × Node))
    (new_call : is_sender_blocked fuel s.blocked s.g_blocked_senders s.who_p ≡ ok false)
    (fetch : fetch_message w s.m_in.i3 s.m_in.i2 w.junk_text s ≡ ok f)
    (string : c_string f.dest ≡ ok text)
    (copied : datacopy w.junk_receivers (w.copy_ints s.who_e s.m_in.p2 s.m_in.i3) w.copy_error
      ≡ ok (retval, receivers))
    (mailboxes : Chain s.mailboxes s.g_mailbox ((s.g_mailbox, b) ∷ l)) (named : b.id ≡ s.m_in.i1)
    (nodes : Chain s.nodes b.sender_list (x ∷ senders)) (first : x.1.pid ≡ w.mp_pid s.who_p) where
  incoming_run : incoming fuel w s ≡ ok (text, f.state)
  unfolding incoming
  incoming_run = rw (new_call, fetch, string) refl

  valid :
      length l + 1 < fuel
      → is_valid_sender fuel s.nodes s.mailboxes s.g_mailbox s.m_in.i1 (w.mp_pid s.who_p) ≡ ok true
  valid lt =
      let here : (b.id == s.m_in.i1) ≡ true = rw (named) (==_refl s.m_in.i1) in
      is_valid_sender-eq-first_sender s.nodes s.mailboxes fuel s.g_mailbox s.m_in.i1
        (w.mp_pid s.who_p) ((s.g_mailbox, b) ∷ l) (s.g_mailbox, b) (x ∷ senders) mailboxes
        (rw (here) refl) nodes (omega (arith, lt))
      ∙ rw (first, ==_refl (w.mp_pid s.who_p)) refl

  -- The sender is the first of the senders of the first mailbox: the call comes to the loop over
  -- the mailboxes with the text and the receivers.
  pub do_deposit_message-deposit_loop :
      length l + 1 < fuel
      → do_deposit_message fuel w s
        ≡ deposit_loop fuel w s.g_mailbox s.m_in.i1 text
            (w.mp_pid s.who_p)
            receivers
            (after_fetch s f)
  unfolding do_deposit_message deposit_text
  do_deposit_message-deposit_loop lt = rw (incoming_run) (
      ap (deposit_text fuel w s.m_in.i1 text)
        (fetch_message-state w s.m_in.i3 s.m_in.i2 w.junk_text s f fetch)
      ∙ rw (valid lt, copied) refl)
