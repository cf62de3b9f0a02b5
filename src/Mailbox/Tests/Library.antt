-- ===== src/Mailbox/Tests/Library.antt =====
-- openMailbox through the library, with the name "hi".
use gjworks.Common.{◌≡◌, refl, some, List, ℕ, [], ◌∷◌, ◌++◌, arith}
use gjworks.Machine.{◌>>=◌}
use gjworks.Mailbox.State.{World, emsgsize}
use gjworks.Mailbox.Fetch.{c_string}
use gjworks.Mailbox.Open.{do_open_mailbox, open_named}
use gjworks.Mailbox.Library.{open_mailbox, rest_of, open_mailbox-unterminated}
use gjworks.Mailbox.Tests.{sample, world, call}

abbrev hi : List ℕ
hi = b'h' ∷ b'i' ∷ []

-- A stack that holds other bytes where the name is copied to.
abbrev dirty : World
dirty = record world {
  copy_in = λ source address len. some hi;
  junk_name = b'x' ∷ b'y' ∷ b'z' ∷ 0 ∷ 0 ∷ 0 ∷ 0 ∷ 0 ∷ 0 ∷ 0 ∷ [];
}

open_mailbox-unterminated_example :
    do_open_mailbox 9 dirty (record sample { m_in = open_mailbox (call 0 0) 900 hi 64 }) ≡ (
      c_string (rest_of dirty.junk_name hi) >>= λ rest.
      open_named 9 dirty
        (hi ++ rest)
        (record sample { m_in = open_mailbox (call 0 0) 900 hi 64; err_code = some emsgsize }))
open_mailbox-unterminated_example =
    open_mailbox-unterminated 9 dirty sample (call 0 0) 900 64 b'h' (b'i' ∷ []) (omega arith)
      (omega arith, (omega arith, tt)) (omega arith) refl
