-- ===== src/Mailbox/State.antt =====
-- The structs of mailbox.c and type.h, and the state of the process manager that they live in.
-- An `int` or `pid_t` is its 32-bit pattern; a C string is its bytes before the NUL.
use gjworks.Common.{ℕ, refl, Bool, List, Option}
use gjworks.Machine.{Heap, Linked}

-- `struct node`
pub record Node : Type 0 where
  pub pid : ℕ
  pub next : ℕ

-- `struct message`; the `next` of its `_sender` node is never used.
pub record Message : Type 0 where
  pub sender : ℕ
  pub receiver_list : ℕ
  pub text : List ℕ
  pub next : ℕ

-- `struct mailbox`
pub record Mailbox : Type 0 where
  pub id : ℕ
  pub name : List ℕ
  pub owner : ℕ
  pub sender_list : ℕ
  pub receiver_list : ℕ
  pub message_list : ℕ
  pub message_count : ℕ
  pub next : ℕ

-- The Minix `message` that carries a call, by the words that the handlers read. The union lays
-- m1_i1 on m3_i1 (the mailbox id or the flags), m1_i2 on m3_i2 and m1_i3 on m3_p1.
pub record Call : Type 0 where
  pub source : ℕ
  pub i1 : ℕ
  pub i2 : ℕ
  pub i3 : ℕ
  pub p1 : ℕ
  pub p2 : ℕ

-- `struct blockedSender`
pub record BlockedSender : Type 0 where
  pub pid : ℕ
  pub mailbox_id : ℕ
  pub who_p : ℕ
  pub msg : List ℕ
  pub message_sender : Call
  pub unblocked : Bool
  pub next : ℕ

instance abbrev pub node_link : Linked Node
node_link = record {
  next = λ n. n.next;
  set_next = λ n p. record n { next = p };
  next-set = λ n p. refl;
}

instance abbrev pub message_link : Linked Message
message_link = record {
  next = λ m. m.next;
  set_next = λ m p. record m { next = p };
  next-set = λ m p. refl;
}

instance abbrev pub mailbox_link : Linked Mailbox
mailbox_link = record {
  next = λ b. b.next;
  set_next = λ b p. record b { next = p };
  next-set = λ b p. refl;
}

instance abbrev pub blocked_link : Linked BlockedSender
blocked_link = record {
  next = λ b. b.next;
  set_next = λ b p. record b { next = p };
  next-set = λ b p. refl;
}

-- The values of `err_code`.
pub data Errno : Type 0 where
  emailboxfull emailboxnotfound einvalidsender emsgsize einval emsgempty eperm : Errno

-- What a handler returns: OK, an id, ERROR, EGENERIC, SUSPEND, or, past the end of a function with
-- no `return`, nothing in particular.
pub data Reply : Type 0 where
  value : ℕ → Reply
  error egeneric suspend unspecified : Reply

-- A copy out of the process manager by `sys_datacopy`: the process, the address, the words.
pub record Sent : Type 0 where
  pub endpoint : ℕ
  pub address : ℕ
  pub words : List ℕ

-- The globals, and the structs on the heap. `fresh` is the next address that `malloc` gives.
pub record Pm : Type 0 where
  pub nodes : Heap Node
  pub messages : Heap Message
  pub mailboxes : Heap Mailbox
  pub blocked : Heap BlockedSender
  pub fresh : ℕ
  pub g_mailbox : ℕ
  pub g_last_mailbox_id : ℕ
  pub g_blocked_senders : ℕ
  pub m_in : Call
  pub who_p : ℕ
  pub who_e : ℕ
  pub err_code : Option Errno
  pub sigsuspended : ℕ → Bool
  pub sent : List Sent

-- What lies outside the code: the pids of the process table; the bytes or the ints that
-- `sys_datacopy` brings from a process, an address and a length, with `none` and the result
-- `copy_error` where it fails; the tests `flags & O_CREAT` and `flags & O_WRONLY`; and what new memory and the arrays of the stack happen to hold.
pub record World : Type 0 where
  pub mp_pid : ℕ → ℕ
  pub copy_in : ℕ → ℕ → ℕ → Option (List ℕ)
  pub copy_ints : ℕ → ℕ → ℕ → Option (List ℕ)
  pub copy_error : ℕ
  pub o_creat : ℕ → Bool
  pub o_wronly : ℕ → Bool
  pub junk_node : ℕ → Node
  pub junk_message : ℕ → Message
  pub junk_mailbox : ℕ → Mailbox
  pub junk_blocked : ℕ → BlockedSender
  pub junk_name : List ℕ
  pub junk_text : List ℕ
  pub junk_receivers : List ℕ
  pub junk_list : List ℕ
  pub junk_pointer : ℕ

abbrev pub max_mailbox_count : ℕ
max_mailbox_count = 5

abbrev pub max_mailbox_name_length : ℕ
max_mailbox_name_length = 10

abbrev pub max_message_in_mailbox : ℕ
max_message_in_mailbox = 5

abbrev pub max_message_length : ℕ
max_message_length = 256

abbrev pub max_nodes : ℕ
max_nodes = 5
