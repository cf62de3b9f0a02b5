-- ===== src/Mailbox/Library.antt =====
-- Mailbox_SourceCode/lib/libc/sys-minix/mailbox.c: the message that each function of the library
-- sends to the process manager. `junk` is what the message on the stack holds before; the kernel
-- writes its `source`. m3_p1 lies at the third word of a message, as m1_i3 does.
use gjworks.Common.{
  ℕ, suc, ◌≤◌, ◌<◌, ◌≡◌, ◌≢◌, refl, false, some, List, [], ◌∷◌, ◌++◌, length, All, ◌==◌, ==_other,
  arith,
}
use gjworks.Machine.{Run, ok, fault, out_of_fuel, ◌>>=◌}
use gjworks.Mailbox.State.{Call, Pm, World, emsgsize, max_mailbox_name_length}
use gjworks.Mailbox.Fetch.{c_string}
use gjworks.Mailbox.Fetch.Laws.{overlay, last_byte, fetch_message-fetched}
use gjworks.Mailbox.Open.{do_open_mailbox, open_named}

unfoldable pub open_mailbox : Call → ℕ → List ℕ → ℕ → Call
open_mailbox junk address name flags = record junk { i1 = flags; i2 = length name; i3 = address }

unfoldable pub close_mailbox : Call → ℕ → Call
close_mailbox junk mailbox_id = record junk { i1 = mailbox_id }

-- The list of receivers is not sent.
unfoldable pub deposit_message : Call → ℕ → ℕ → List ℕ → ℕ → Call
deposit_message junk mailbox_id address msg_text receiver_list = record junk {
  i1 = mailbox_id;
  i2 = length msg_text;
  i3 = address;
}

unfoldable pub retrieve_message_call : Call → ℕ → ℕ → Call
retrieve_message_call junk mailbox_id address = record junk { i1 = mailbox_id; p1 = address }

unfoldable pub get_receiver_list : Call → ℕ → ℕ → Call
get_receiver_list junk mailbox_id address = record junk { i1 = mailbox_id; p2 = address }

-- What is left of an array behind the bytes that are copied to its start.
abbrev pub rest_of : List ℕ → List ℕ → List ℕ
rest_of array [] = array
rest_of [] (b ∷ bs) = []
rest_of (x ∷ array) (b ∷ bs) = rest_of array bs

bind_ok : {A : Type 0} (m : Run A) → m ≡ (m >>= ok)
bind_ok (ok a) = refl
bind_ok fault = refl
bind_ok out_of_fuel = refl

bind_assoc :
    {A B C : Type 0} (m : Run A) (f : A → B) (g : B → Run C)
    → ((m >>= λ a. ok (f a)) >>= g) ≡ (m >>= λ a. g (f a))
bind_assoc (ok a) f g = refl
bind_assoc fault f g = refl
bind_assoc out_of_fuel f g = refl

-- A string copied without its NUL runs on into what the array held behind it.
c_string-overlay :
    (array bs : List ℕ)
    → All (λ b. b ≢ 0) bs
    → length bs ≤ length array
    → c_string (overlay array bs) ≡ (c_string (rest_of array bs) >>= λ rest. ok (bs ++ rest))
unfolding c_string
c_string-overlay array [] a l = bind_ok (c_string array)
c_string-overlay [] (b ∷ bs) a l = absurd (omega arith)
c_string-overlay (x ∷ array) (b ∷ bs) (h, a) l =
    ground (arith, c_string-overlay array bs a (omega arith))

last_byte-real : (b : ℕ) (bs : List ℕ) → b ≢ 0 → All (λ c. c ≢ 0) bs → last_byte b bs ≢ 0
last_byte-real b [] h a = h
last_byte-real b (c ∷ bs) h (k, a) = last_byte-real c bs k a

-- openMailbox for a name of 1 to 10 bytes: since the library passes strlen, fetchMessage copies no
-- NUL, and reports EMSGSIZE, which do_openMailbox does not look at; the mailbox that is opened has
-- the name with all that the array on the stack held behind it, up to a NUL, and without a NUL
-- there the call is undefined.
pub open_mailbox-unterminated :
    (fuel : ℕ) (w : World) (s : Pm) (junk : Call) (address flags b : ℕ) (bs : List ℕ)
    → length w.junk_name ≡ max_mailbox_name_length
    → All (λ c. c ≢ 0) (b ∷ bs)
    → length bs < max_mailbox_name_length
    → w.copy_in junk.source address (suc (length bs)) ≡ some (b ∷ bs)
    → do_open_mailbox fuel w (record s { m_in = open_mailbox junk address (b ∷ bs) flags }) ≡ (
        c_string (rest_of w.junk_name (b ∷ bs)) >>= λ rest.
        open_named fuel w
          ((b ∷ bs) ++ rest)
          (record s { m_in = open_mailbox junk address (b ∷ bs) flags; err_code = some emsgsize }))
unfolding do_open_mailbox open_mailbox
open_mailbox-unterminated fuel w s junk address flags b bs ten real short copied =
    let (h, a) = real in
    let s' = record s { m_in = open_mailbox junk address (b ∷ bs) flags } in
    let tested : (last_byte b bs == 0) ≡ false =
      ==_other (last_byte b bs) 0 (last_byte-real b bs h a) in
    let run =
      fetch_message-fetched w address w.junk_name s' b bs (omega arith) (omega (arith, ten))
        copied in
    rw (run, tested, c_string-overlay w.junk_name (b ∷ bs) real (omega (arith, ten)))
      (bind_assoc (c_string (rest_of w.junk_name (b ∷ bs))) (λ rest. (b ∷ bs) ++ rest)
        (λ name. open_named fuel w name (record s' { err_code = some emsgsize })))
