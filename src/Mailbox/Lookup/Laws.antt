-- ===== src/Mailbox/Lookup/Laws.antt =====
-- The lookups of mailbox.c, as searches in the list of mailboxes.
use gjworks.Common.{
  ℕ, zero, suc, ◌+◌, ◌<◌, ◌≡◌, Bool, false, some, List, [], ◌∷◌, arith, length, ◌==◌, if◌then◌else◌,
  str_eq, ◌||◌,
}
use gjworks.Machine.{ok, fault, Heap, load-some, load-null}
use gjworks.Machine.Chain.{Chain, find_first, find?, drop_last}
use gjworks.Mailbox.State.{mailbox_link, message_link, node_link, Node, Message, Mailbox}
use gjworks.Mailbox.Lookup.{
  get_mailbox_by_name, count_mailboxes, get_mailbox_count, count_messages, get_message_count,
  get_mailbox_loop, get_mailbox, validate_receiver,
}

module _ (h : Heap Mailbox) where
  -- On a list of mailboxes, getMailboxByName returns the address of the first mailbox of that name,
  -- and NULL if there is none; fuel above the number of mailboxes is enough.
  pub get_mailbox_by_name-eq-find_first :
      (fuel p : ℕ) (name : List ℕ) (l : List (ℕ × Mailbox))
      → Chain h p l
      → length l < fuel
      → get_mailbox_by_name fuel h p name ≡ ok (find_first (λ b. str_eq b.name name) l)
  unfolding get_mailbox_by_name
  get_mailbox_by_name-eq-find_first zero p name l ch lt = absurd (omega arith)
  get_mailbox_by_name-eq-find_first (suc fuel) p name [] ch lt = ground arith
  get_mailbox_by_name-eq-find_first (suc fuel) p name ((a, b) ∷ l) ch lt = ground (
    arith,
    load-some h p b,
    get_mailbox_by_name-eq-find_first fuel b.next name l ch.4 (omega arith),
  )

  count_mailboxes-eq-add :
      (fuel p count : ℕ) (l : List (ℕ × Mailbox))
      → Chain h p l
      → length l < fuel
      → count_mailboxes fuel h p count ≡ ok (count + length l)
  unfolding count_mailboxes
  count_mailboxes-eq-add zero p count l ch lt = absurd (omega arith)
  count_mailboxes-eq-add (suc fuel) p count [] ch lt = ground arith
  count_mailboxes-eq-add (suc fuel) p count ((a, b) ∷ l) ch lt =
      ground (
        arith,
        load-some h p b,
        count_mailboxes-eq-add fuel b.next (count + 1) l ch.4 (omega arith),
      )

  -- getMailboxCount returns the number of mailboxes.
  pub get_mailbox_count-eq-length :
      (fuel p : ℕ) (l : List (ℕ × Mailbox))
      → Chain h p l
      → length l < fuel
      → get_mailbox_count fuel h p ≡ ok (length l)
  unfolding get_mailbox_count
  get_mailbox_count-eq-length fuel p l ch lt =
      ground (arith, count_mailboxes-eq-add fuel p 0 l ch lt)

  get_mailbox_loop-eq :
      (fuel p id : ℕ) (x y : ℕ × Mailbox) (l : List (ℕ × Mailbox))
      → Chain h p (x ∷ y ∷ l)
      → length l + 1 < fuel
      → get_mailbox_loop fuel h p id ≡ ok (find_first (λ b. b.id == id) (drop_last (x ∷ y ∷ l)))
  unfolding get_mailbox_loop
  get_mailbox_loop-eq zero p id x y l ch lt = absurd (omega arith)
  get_mailbox_loop-eq (suc fuel) p id (a, b) (c, d) [] ch lt =
      ground (arith, load-some h p b, load-some h b.next d)
  get_mailbox_loop-eq (suc fuel) p id (a, b) (c, d) (z ∷ l) ch lt = ground (
    arith,
    load-some h p b,
    load-some h b.next d,
    get_mailbox_loop-eq fuel b.next id (c, d) z l ch.4 (omega arith),
  )

  -- On a list of two or more mailboxes, getMailbox searches all of them but the last: it returns
  -- the address of the first with that id, and NULL if only the last or none has it.
  pub get_mailbox-eq-find_first :
      (fuel p id : ℕ) (x y : ℕ × Mailbox) (l : List (ℕ × Mailbox))
      → Chain h p (x ∷ y ∷ l)
      → length l + 1 < fuel
      → get_mailbox fuel h p id ≡ ok (find_first (λ b. b.id == id) (drop_last (x ∷ y ∷ l)))
  unfolding get_mailbox
  get_mailbox-eq-find_first fuel p id x y l ch lt =
      ground (arith, get_mailbox_loop-eq fuel p id x y l ch lt)

  -- With one mailbox, getMailbox finds it by its id, and is undefined for any other id.
  pub get_mailbox_alone :
      (fuel p id : ℕ) (b : Mailbox)
      → Chain h p ((p, b) ∷ [])
      → 0 < fuel
      → get_mailbox fuel h p id ≡ (if b.id == id then ok p else fault)
  unfolding get_mailbox
  get_mailbox_alone zero p id b ch lt = absurd (omega arith)
  get_mailbox_alone (suc fuel) p id b ch lt = ground (arith, load-some h p b, load-null h b.next)

count_messages-eq-add :
    (h : Heap Message) (fuel p count : ℕ) (l : List (ℕ × Message))
    → Chain h p l
    → length l < fuel
    → count_messages fuel h p count ≡ ok (count + length l)
unfolding count_messages
count_messages-eq-add h zero p count l ch lt = absurd (omega arith)
count_messages-eq-add h (suc fuel) p count [] ch lt = ground arith
count_messages-eq-add h (suc fuel) p count ((a, m) ∷ l) ch lt =
    ground
      (arith, load-some h p m, count_messages-eq-add h fuel m.next (count + 1) l ch.4 (omega arith))

-- getMessageCount returns the number of messages of the first mailbox with that id.
pub get_message_count-eq-length :
    (messages : Heap Message) (h : Heap Mailbox) (fuel p id : ℕ) (l : List (ℕ × Mailbox))
    (b : ℕ × Mailbox) (q : List (ℕ × Message))
    → Chain h p l
    → find? (λ b. b.id == id) l ≡ some b
    → Chain messages b.1.message_list q
    → length l + length q < fuel
    → get_message_count fuel messages h p id ≡ ok (length q)
unfolding get_message_count
get_message_count-eq-length messages h zero p id l b q ch e mch lt = absurd (omega arith)
get_message_count-eq-length messages h (suc fuel) p id [] b q ch e mch lt = cc
get_message_count-eq-length messages h (suc fuel) p id ((a, c) ∷ l) b q ch e mch lt = ground (
  arith,
  load-some h p c,
  count_messages-eq-add messages (suc fuel) c.message_list 0 q,
  get_message_count-eq-length messages h fuel c.next id l b q ch.4,
)

-- Some process of the list is `pid`.
abbrev pub has_pid : ℕ → List (ℕ × Node) → Bool
has_pid pid [] = false
has_pid pid ((a, n) ∷ l) = n.pid == pid || has_pid pid l

-- validateReceiver tells whether the process is in the list of receivers.
pub validate_receiver-eq-has_pid :
    (nodes : Heap Node) (fuel p pid : ℕ) (l : List (ℕ × Node))
    → Chain nodes p l
    → length l < fuel
    → validate_receiver fuel nodes p pid ≡ ok (has_pid pid l)
unfolding validate_receiver
validate_receiver-eq-has_pid nodes zero p pid l ch lt = absurd (omega arith)
validate_receiver-eq-has_pid nodes (suc fuel) p pid [] ch lt = ground arith
validate_receiver-eq-has_pid nodes (suc fuel) p pid ((a, n) ∷ l) ch lt = ground (
  arith,
  load-some nodes p n,
  validate_receiver-eq-has_pid nodes fuel n.next pid l ch.4 (omega arith),
)
