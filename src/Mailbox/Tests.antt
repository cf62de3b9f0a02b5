-- ===== src/Mailbox/Tests.antt =====
-- A state of the process manager with two mailboxes, for tests.
mod Nodes
mod Calls
mod Library
use gjworks.Common.{
  ℕ, ◌≡◌, refl, Bool, true, false, none, some, List, [], ◌∷◌, Option, ◌==◌, if◌then◌else◌, arith,
}
use gjworks.Machine.{Heap}
use gjworks.Machine.Chain.{Chain}
use gjworks.Mailbox.State.{
  node_link, message_link, mailbox_link, blocked_link, Node, Message, Mailbox, BlockedSender, Call,
  Pm, World,
}

abbrev heap_of : {C : Type 0} → List (ℕ × C) → Heap C
heap_of [] q = none
heap_of ((a, c) ∷ l) q = if a == q then some c else heap_of l q

abbrev node : ℕ → ℕ → Node
node pid next = record { pid = pid; next = next }

abbrev message : ℕ → ℕ → List ℕ → ℕ → Message
message sender receiver_list text next = record {
  sender = sender;
  receiver_list = receiver_list;
  text = text;
  next = next;
}

abbrev mailbox : ℕ → List ℕ → ℕ → ℕ → ℕ → ℕ → Mailbox
mailbox id name sender_list receiver_list message_list next = record {
  id = id;
  name = name;
  owner = 0;
  sender_list = sender_list;
  receiver_list = receiver_list;
  message_list = message_list;
  message_count = 0;
  next = next;
}

abbrev call : ℕ → ℕ → Call
call i1 i2 = record { source = 7; i1 = i1; i2 = i2; i3 = 900; p1 = 901; p2 = 902 }

abbrev waiting : ℕ → ℕ → Bool → ℕ → BlockedSender
waiting id who unblocked next = record {
  pid = 0;
  mailbox_id = id;
  who_p = who;
  msg = b'y' ∷ [];
  message_sender = call id 2;
  unblocked = unblocked;
  next = next;
}

abbrev senders : List (ℕ × Node)
senders = (1, node 11 2) ∷ (2, node 12 0) ∷ []

abbrev receivers : List (ℕ × Node)
receivers = (3, node 12 0) ∷ []

abbrev addressees : List (ℕ × Node)
addressees = (4, node 12 5) ∷ (5, node 14 0) ∷ []

abbrev first_mailbox : Mailbox
first_mailbox = mailbox 0 (b'a' ∷ []) 1 3 30 21

abbrev second_mailbox : Mailbox
second_mailbox = mailbox 1 (b'b' ∷ []) 0 0 0 0

abbrev mailboxes : List (ℕ × Mailbox)
mailboxes = (20, first_mailbox) ∷ (21, second_mailbox) ∷ []

abbrev messages : List (ℕ × Message)
messages = (30, message 11 4 (b'h' ∷ b'i' ∷ []) 0) ∷ []

abbrev contexts : List (ℕ × BlockedSender)
contexts = (40, waiting 0 5 false 41) ∷ (41, waiting 1 6 true 0) ∷ []

abbrev sample : Pm
sample = record {
  nodes = heap_of ((1, node 11 2) ∷ (2, node 12 0) ∷ (3, node 12 0) ∷ addressees);
  messages = heap_of messages;
  mailboxes = heap_of mailboxes;
  blocked = heap_of contexts;
  fresh = 50;
  g_mailbox = 20;
  g_last_mailbox_id = 2;
  g_blocked_senders = 40;
  m_in = call 0 3;
  who_p = 8;
  who_e = 7;
  err_code = none;
  sigsuspended = λ q. false;
  sent = [];
}

-- The process in slot 8 is 11, memory comes zeroed, and the caller's text is `hey` with its NUL.
abbrev world : World
world = record {
  mp_pid = λ q. if q == 8 then 11 else 99;
  copy_in = λ source address len. some (b'h' ∷ b'e' ∷ b'y' ∷ 0 ∷ []);
  copy_ints = λ source address len. some (12 ∷ 14 ∷ 0 ∷ 0 ∷ 0 ∷ []);
  copy_error = 14;
  o_creat = λ flags. flags == 64;
  o_wronly = λ flags. flags == 1;
  junk_node = λ a. node 0 0;
  junk_message = λ a. message 0 0 [] 0;
  junk_mailbox = λ a. mailbox 0 [] 0 0 0 0;
  junk_blocked = λ a. waiting 0 0 false 0;
  junk_name = 0 ∷ 0 ∷ 0 ∷ 0 ∷ 0 ∷ 0 ∷ 0 ∷ 0 ∷ 0 ∷ 0 ∷ [];
  junk_text = 0 ∷ 0 ∷ 0 ∷ 0 ∷ 0 ∷ 0 ∷ [];
  junk_receivers = 0 ∷ 0 ∷ 0 ∷ 0 ∷ 0 ∷ [];
  junk_list = 0 ∷ 0 ∷ 0 ∷ 0 ∷ 0 ∷ 0 ∷ [];
  junk_pointer = 0;
}

pub mailboxes-Chain : Chain sample.mailboxes sample.g_mailbox mailboxes
mailboxes-Chain = ground arith

pub messages-Chain : Chain sample.messages 30 messages
messages-Chain = ground arith

pub senders-Chain : Chain sample.nodes 1 senders
senders-Chain = ground arith

pub receivers-Chain : Chain sample.nodes 3 receivers
receivers-Chain = ground arith

pub addressees-Chain : Chain sample.nodes 4 addressees
addressees-Chain = ground arith

pub contexts-Chain : Chain sample.blocked sample.g_blocked_senders contexts
contexts-Chain = ground arith
