-- ===== src/Mailbox/Fetch/State.antt =====
-- What fetchMessage changes of the state.
use gjworks.Common.{ℕ, ◌-◌, ◌≡◌, refl, subst, Bool-cases, inl, inr, not, List, ◌==◌}
use gjworks.Machine.{Run, ok, fault, out_of_fuel, ◌>>=◌}
use gjworks.Mailbox.State.{Pm, World, max_message_length}
use gjworks.Mailbox.Fetch.{Fetched, fetch_message, datacopy, read_array, longer_than, positive}

-- If the call returns, only `err_code` is another.
abbrev SetsErrCode : Pm → Run Fetched → Type 0
SetsErrCode s (ok f) = f.state ≡ record s { err_code = f.state.err_code }
SetsErrCode s fault = Unit
SetsErrCode s out_of_fuel = Unit

bind-SetsErrCode :
    {A : Type 0} (s : Pm) (r : Run A) (k : A → Run Fetched)
    → ((a : A) → SetsErrCode s (k a))
    → SetsErrCode s (r >>= k)
bind-SetsErrCode s (ok a) k h = h a
bind-SetsErrCode s fault k h = tt
bind-SetsErrCode s out_of_fuel k h = tt

fetch_message-SetsErrCode :
    (w : World) (address len : ℕ) (dest : List ℕ) (s : Pm)
    → SetsErrCode s (fetch_message w address len dest s)
unfolding fetch_message
fetch_message-SetsErrCode w address len dest s =
    elim (Bool-cases (longer_than max_message_length len)) [
      | inl e ↦ rw (e) refl
      | inr e ↦ elim (Bool-cases (not (positive len))) [
        | inl f ↦ rw (e, f) refl
        | inr f ↦
            rw (e, f)
              (bind-SetsErrCode s (datacopy dest (w.copy_in s.m_in.source address len) w.copy_error)
                _
                (λ c. bind-SetsErrCode s (read_array c.1 (len - 1)) _ (λ end.
                  bind-SetsErrCode s (read_array c.1 0) _ (λ start.
                    elim (Bool-cases (not (end == 0))) [
                      | inl g ↦ rw (g) refl
                      | inr g ↦ elim (Bool-cases (start == 0)) [
                        | inl h ↦ rw (g, h) refl
                        | inr h ↦ rw (g, h) refl
                      ]
                    ]))))
      ]
    ]

-- Of the state only `err_code` changes.
pub fetch_message-state :
    (w : World) (address len : ℕ) (dest : List ℕ) (s : Pm) (f : Fetched)
    → fetch_message w address len dest s ≡ ok f
    → f.state ≡ record s { err_code = f.state.err_code }
fetch_message-state w address len dest s f e =
    subst (SetsErrCode s) e (fetch_message-SetsErrCode w address len dest s)
