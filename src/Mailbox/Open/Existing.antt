-- ===== src/Mailbox/Open/Existing.antt =====
-- do_openMailbox where it creates nothing.
use gjworks.Common.{ℕ, ◌≤◌, ◌<◌, ◌≡◌, true, false, some, List, ◌∷◌, arith, length, str_eq}
use gjworks.Machine.{ok, fault}
use gjworks.Machine.Chain.{Chain, find_first}
use gjworks.Mailbox.State.{
  mailbox_link, node_link, Mailbox, Pm, World, error, emailboxfull, emailboxnotfound,
  max_mailbox_count, max_mailbox_name_length, max_message_length,
}
use gjworks.Mailbox.Fetch.Laws.{fetch_message_overruns}
use gjworks.Mailbox.Lookup.Laws.{get_mailbox_by_name-eq-find_first, get_mailbox_count-eq-length}
use gjworks.Mailbox.Open.{do_open_mailbox, open_named, create_mailbox}

module _ (fuel : ℕ) (w : World) (name : List ℕ) (s : Pm) where
  -- Without O_CREAT, a name that no mailbox has is refused with EMAILBOXNOTFOUND, and only
  -- `err_code` changes.
  pub open_missing :
      (l : List (ℕ × Mailbox))
      → Chain s.mailboxes s.g_mailbox l
      → length l < fuel
      → w.o_creat s.m_in.i1 ≡ false
      → find_first (λ b. str_eq b.name name) l ≡ 0
      → open_named fuel w name s ≡ ok (error, record s { err_code = some emailboxnotfound })
  unfolding open_named
  open_missing l ch lt flag e =
      ground (arith, get_mailbox_by_name-eq-find_first s.mailboxes fuel s.g_mailbox name l ch lt)

  -- With O_CREAT and five mailboxes or more, every open is refused with EMAILBOXFULL, also of a
  -- mailbox that exists, and only `err_code` changes.
  pub open_full :
      (x : ℕ × Mailbox) (l : List (ℕ × Mailbox))
      → Chain s.mailboxes s.g_mailbox (x ∷ l)
      → length (x ∷ l) < fuel
      → w.o_creat s.m_in.i1 ≡ true
      → max_mailbox_count ≤ length (x ∷ l)
      → open_named fuel w name s ≡ ok (error, record s { err_code = some emailboxfull })
  unfolding open_named create_mailbox
  open_full x l ch lt flag le =
      ground
        (arith, ch.0, ch.1, get_mailbox_count-eq-length s.mailboxes fuel s.g_mailbox (x ∷ l) ch lt)

-- do_openMailbox with a name of 11 to 256 bytes, at any fuel and in any state, is undefined: the copy
-- of the name runs past the array of ten bytes.
pub open_long_name :
    (fuel : ℕ) (w : World) (s : Pm) (bs : List ℕ)
    → length w.junk_name ≡ max_mailbox_name_length
    → s.m_in.i2 ≡ length bs
    → max_mailbox_name_length < length bs
    → length bs ≤ max_message_length
    → w.copy_in s.m_in.source s.m_in.i3 (length bs) ≡ some bs
    → do_open_mailbox fuel w s ≡ fault
unfolding do_open_mailbox
open_long_name fuel w s bs ten len long le copied = ground (
  arith,
  fetch_message_overruns w s.m_in.i3 w.junk_name s bs (omega arith) le (omega arith) copied,
)
