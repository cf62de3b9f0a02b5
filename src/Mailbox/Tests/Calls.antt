-- ===== src/Mailbox/Tests/Calls.antt =====
-- The theorems on the calls of mailbox.c at the sample state.
use gjworks.Common.{
  ◌++◌, ℕ, ◌+◌, ◌≡◌, ◌≢◌, refl, true, false, none, some, List, [], ◌∷◌, arith, ◌==◌, if◌then◌else◌,
  str_eq,
}
use gjworks.Machine.{ok, fault, out_of_fuel, Heap, load, update, free}
use gjworks.Machine.Chain.{Chain}
use gjworks.Mailbox.State.{
  node_link, message_link, mailbox_link, blocked_link, Message, Mailbox, BlockedSender, Pm, World,
  egeneric, emsgsize, value, suspend, unspecified,
}
use gjworks.Mailbox.Lookup.{get_mailbox, is_valid_sender}
use gjworks.Mailbox.Lookup.Laws.{get_mailbox-eq-find_first, get_mailbox_alone}
use gjworks.Mailbox.Lookup.Senders.{is_valid_sender-eq-first_sender}
use gjworks.Mailbox.Nodes.{remove_process, remove_owner, delete_process, update_mailbox}
use gjworks.Mailbox.Fetch.{Fetched, fetch_message, c_string, datacopy, write_array}
use gjworks.Mailbox.Fetch.Laws.{fetch_message-fetched}
use gjworks.Mailbox.Blocked.{get_context, is_sender_blocked}
use gjworks.Mailbox.Open.{open_named}
use gjworks.Mailbox.Open.Create.{Created, open_creates}
use gjworks.Mailbox.Close.{do_close_mailbox, close_keeps_mailboxes}
use gjworks.Mailbox.Deposit.{do_deposit_message}
use gjworks.Mailbox.Deposit.Full.{deposit_full}
use gjworks.Mailbox.Deposit.Room.{Deposited, deposit_room}
use gjworks.Mailbox.Retrieve.{retrieve_message, retrieve_loop, take_receiver, deliver_copy}
use gjworks.Mailbox.Retrieve.Kept.{Kept, retrieve_message-Kept}
use gjworks.Mailbox.Retrieve.Delivered.{Copied, first_text, retrieve_message-first_text}
use gjworks.Mailbox.Tests.{
  sample, world, node, message, mailbox, call, heap_of, first_mailbox, second_mailbox, mailboxes,
  messages, senders, addressees, contexts, mailboxes-Chain, messages-Chain, senders-Chain,
  addressees-Chain, contexts-Chain,
}

abbrev hey : List ℕ
hey = b'h' ∷ b'e' ∷ b'y' ∷ []

abbrev to : List ℕ
to = 12 ∷ 14 ∷ 0 ∷ 0 ∷ 0 ∷ []

-- The caller asks for three bytes, so that the last of them is no NUL: the call goes on all the same.
abbrev hey_fetched : Pm → Fetched
hey_fetched s = record {
  reply = egeneric;
  dest = hey ++ (0 ∷ 0 ∷ 0 ∷ []);
  state = record s { err_code = some emsgsize };
}

hey_fetch : (s : Pm) → fetch_message world 900 3 world.junk_text s ≡ ok (hey_fetched s)
unfolding fetch_message datacopy write_array
hey_fetch s = refl

hey_string : c_string (hey ++ (0 ∷ 0 ∷ 0 ∷ [])) ≡ ok hey
unfolding c_string
hey_string = refl

to_copied : datacopy world.junk_receivers (world.copy_ints 7 902 900) world.copy_error ≡ ok (0, to)
unfolding datacopy write_array
to_copied = refl

deposit_room_example :
    (s' : Pm) × (do_deposit_message 9 world sample ≡ ok (unspecified, s'))
    × Deposited 20 first_mailbox messages hey 11 (12 ∷ 14 ∷ []) sample s'
unfolding is_sender_blocked load
deposit_room_example =
    deposit_room 9 world sample (hey_fetched sample) hey 0 to first_mailbox
      ((21, second_mailbox) ∷ []) (1, node 11 2) ((2, node 12 0) ∷ []) messages refl
      (hey_fetch sample) hey_string to_copied mailboxes-Chain refl senders-Chain refl messages-Chain
      (omega arith) (omega arith) (omega arith) (omega arith) refl (omega arith)

-- Six messages in the first mailbox.
abbrev full_queue : List (ℕ × Message)
full_queue =
    (31, message 11 0 [] 32)
    ∷ (32, message 11 0 [] 33)
    ∷ (33, message 11 0 [] 34)
    ∷ (34, message 11 0 [] 35)
    ∷ (35, message 11 0 [] 0)
    ∷ []

abbrev full_mailbox : Mailbox
full_mailbox = mailbox 0 (b'a' ∷ []) 1 3 31 21

abbrev full : Pm
full = record sample {
  messages = heap_of full_queue;
  mailboxes = heap_of ((20, full_mailbox) ∷ (21, second_mailbox) ∷ []);
}

deposit_full_example :
    (h : Heap BlockedSender) × (g : ℕ) × (do_deposit_message 11 world full
      ≡ ok (
        suspend,
        record full {
          blocked = h;
          g_blocked_senders = g;
          fresh = 50 + 1;
          sigsuspended = λ q. if q == 8 then true else false;
          err_code = some emsgsize;
        },
      ))
    × (is_sender_blocked 11 h g 8 ≡ ok true)
    × (get_context 11 h g 8 ≡ ok (some (call 0 3, hey)))
deposit_full_example =
    deposit_full 11 world full (hey_fetched full) hey 0 to full_mailbox ((21, second_mailbox) ∷ [])
      (1, node 11 2) ((2, node 12 0) ∷ []) full_queue contexts (hey_fetch full) hey_string to_copied
      (ground arith) refl senders-Chain refl (ground arith) (omega arith) contexts-Chain
      (omega arith) (omega arith) (omega arith) refl

abbrev opening : ℕ → Pm
opening flags = record sample { m_in = call flags 2 }

open_creates_example :
    (s' : Pm) × (open_named 6 world hey (opening 64) ≡ ok (value 2, s'))
    × Created 6 hey (opening 64) s' mailboxes (mailbox 0 [] 0 0 0 0)
unfolding str_eq
open_creates_example =
    open_creates 6 world hey (opening 64) (omega arith) mailboxes mailboxes-Chain (omega arith)
      (omega arith) refl refl (omega arith)
      (record { no_owner = refl; no_senders = refl; no_receivers = refl })

-- The process 11 opens the mailbox "a" for writing, whose first sender it is.
abbrev named : World
named = record world { copy_in = λ source address len. some (b'a' ∷ 0 ∷ []) }

abbrev name_fetched : Fetched
name_fetched = record {
  reply = value 0;
  dest = b'a' ∷ 0 ∷ 0 ∷ 0 ∷ 0 ∷ 0 ∷ 0 ∷ 0 ∷ 0 ∷ 0 ∷ [];
  state = opening 1;
}

abbrev later : List (ℕ × Mailbox)
later =
    (21, mailbox 1 (b'b' ∷ []) 0 0 0 22)
    ∷ (22, mailbox 2 (b'c' ∷ []) 0 0 0 23)
    ∷ (23, mailbox 3 (b'd' ∷ []) 0 0 0 24)
    ∷ (24, mailbox 4 (b'e' ∷ []) 0 0 0 0)
    ∷ []

abbrev five : List (ℕ × Mailbox)
five = (20, mailbox 0 (b'a' ∷ []) 0 0 0 21) ∷ later

abbrev long_name : List ℕ
long_name = 1 ∷ 1 ∷ 1 ∷ 1 ∷ 1 ∷ 1 ∷ 1 ∷ 1 ∷ 1 ∷ 1 ∷ 1 ∷ []

abbrev closed : Pm
closed = record sample { nodes = update sample.nodes 1 none }

close_keeps_mailboxes_example : closed.mailboxes 20 ≢ none
unfolding do_close_mailbox get_mailbox remove_process remove_owner delete_process update_mailbox
close_keeps_mailboxes_example =
    close_keeps_mailboxes 5 world sample (value 0) closed refl 20 (λ e. cc)

retrieve_message-first_text_example :
    ((text : List ℕ)
      → first_text 12 messages (addressees ∷ []) ≡ some text
      → (s' : Pm) × (retrieve_message 9 world 20 12 sample ≡ ok (50, s')) × Copied 50 text s')
    × (first_text 12 messages (addressees ∷ []) ≡ none
        → retrieve_message 9 world 20 12 sample ≡ ok (0, sample))
retrieve_message-first_text_example =
    retrieve_message-first_text 9 5 world 20 12 sample first_mailbox messages (addressees ∷ [])
      (omega arith) refl refl messages-Chain (addressees-Chain, omega arith, tt) (omega arith)

abbrev retrieved : Pm
retrieved = record sample {
  nodes = update sample.nodes 4 none;
  messages = update sample.messages 50 (some (message 0 0 (b'h' ∷ b'i' ∷ []) 0));
  fresh = 51;
}

retrieve_message-Kept_example : Kept sample retrieved
unfolding retrieve_message retrieve_loop take_receiver deliver_copy load free
retrieve_message-Kept_example = retrieve_message-Kept 5 world 20 12 sample 50 retrieved refl

is_valid_sender-eq-first_sender_example :
    is_valid_sender 100 sample.nodes sample.mailboxes 20 0 12 ≡ out_of_fuel
is_valid_sender-eq-first_sender_example =
    is_valid_sender-eq-first_sender sample.nodes sample.mailboxes 100 20 0 12 mailboxes
      (20, first_mailbox) senders mailboxes-Chain refl senders-Chain (omega arith)

get_mailbox-eq-find_first_example : get_mailbox 5 sample.mailboxes 20 1 ≡ ok 0
get_mailbox-eq-find_first_example =
    get_mailbox-eq-find_first sample.mailboxes 5 20 1 (20, first_mailbox) (21, second_mailbox) []
      mailboxes-Chain (omega arith)

get_mailbox_alone_example : get_mailbox 5 (heap_of ((20, second_mailbox) ∷ [])) 20 7 ≡ fault
get_mailbox_alone_example =
    get_mailbox_alone (heap_of ((20, second_mailbox) ∷ [])) 5 20 7 second_mailbox (ground arith)
      (omega arith)

fetch_message-fetched_example :
    fetch_message world 900 4 world.junk_text sample
    ≡ ok (record { reply = value 0; dest = b'h' ∷ b'e' ∷ b'y' ∷ 0 ∷ 0 ∷ 0 ∷ []; state = sample })
fetch_message-fetched_example =
    fetch_message-fetched world 900 world.junk_text sample b'h' (b'e' ∷ b'y' ∷ 0 ∷ []) (omega arith)
      (omega arith) refl
