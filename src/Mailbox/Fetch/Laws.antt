-- ===== src/Mailbox/Fetch/Laws.antt =====
-- fetchMessage on each branch.
use gjworks.Common.{
  ℕ, suc, ◌-◌, ◌^◌, ◌≤◌, ◌<◌, ◌≡◌, refl, List, [], ◌∷◌, some, arith, length, get_elem?, ◌==◌,
  if◌then◌else◌, not, ◌⊎◌,
}
use gjworks.Machine.{ok, fault}
use gjworks.Mailbox.State.{
  Pm, World, value, egeneric, emsgsize, einval, emsgempty, max_message_length,
}
use gjworks.Mailbox.Fetch.{write_array, datacopy, Fetched, fetch_message}

-- The array with its first bytes replaced.
abbrev pub overlay : List ℕ → List ℕ → List ℕ
overlay array [] = array
overlay [] (b ∷ bs) = b ∷ bs
overlay (x ∷ array) (b ∷ bs) = b ∷ overlay array bs

pub write_array-fits :
    (array bs : List ℕ) → length bs ≤ length array → write_array array bs ≡ ok (overlay array bs)
unfolding write_array
write_array-fits array [] le = refl
write_array-fits [] (b ∷ bs) le = absurd (omega arith)
write_array-fits (x ∷ array) (b ∷ bs) le = ground (arith, write_array-fits array bs)

pub write_array_overruns :
    (array bs : List ℕ) → length array < length bs → write_array array bs ≡ fault
unfolding write_array
write_array_overruns array [] lt = absurd (omega arith)
write_array_overruns [] (b ∷ bs) lt = refl
write_array_overruns (x ∷ array) (b ∷ bs) lt = ground (arith, write_array_overruns array bs)

-- The last byte of `b ∷ bs`.
abbrev pub last_byte : ℕ → List ℕ → ℕ
last_byte b [] = b
last_byte b (c ∷ bs) = last_byte c bs

get_elem?-overlay :
    (array : List ℕ) (b : ℕ) (bs : List ℕ)
    → get_elem? (overlay array (b ∷ bs)) (length bs) ≡ some (last_byte b bs)
get_elem?-overlay [] b [] = refl
get_elem?-overlay (x ∷ array) b [] = refl
get_elem?-overlay [] b (c ∷ bs) = get_elem?-overlay [] c bs
get_elem?-overlay (x ∷ array) b (c ∷ bs) = get_elem?-overlay array c bs

get_elem?-overlay_first :
    (array : List ℕ) (b : ℕ) (bs : List ℕ) → get_elem? (overlay array (b ∷ bs)) 0 ≡ some b
get_elem?-overlay_first [] b bs = refl
get_elem?-overlay_first (x ∷ array) b bs = refl

-- What fetchMessage makes of the bytes `b ∷ bs` that the kernel copied.
abbrev pub fetched : List ℕ → ℕ → List ℕ → Pm → Fetched
fetched dest b bs s =
    if not (last_byte b bs == 0)
    then record {
      reply = egeneric;
      dest = overlay dest (b ∷ bs);
      state = record s { err_code = some emsgsize };
    }
    else if b == 0
    then record {
      reply = egeneric;
      dest = overlay dest (b ∷ bs);
      state = record s { err_code = some emsgempty };
    }
    else record { reply = value 0; dest = overlay dest (b ∷ bs); state = s }

module _ (w : World) (address : ℕ) (dest : List ℕ) (s : Pm) where
  -- For a copy that fits and has the length asked for: the array holds the bytes; the call fails
  -- with EMSGSIZE if the last of them is not NUL, with EMSGEMPTY if the text is empty, and else
  -- succeeds. So a caller that passes `strlen` as the length, without the NUL, always fails.
  pub fetch_message-fetched :
      (b : ℕ) (bs : List ℕ)
      → length bs < max_message_length
      → length bs < length dest
      → w.copy_in s.m_in.source address (suc (length bs)) ≡ some (b ∷ bs)
      → fetch_message w address (suc (length bs)) dest s ≡ ok (fetched dest b bs s)
  unfolding fetch_message datacopy
  fetch_message-fetched b bs lt fits copied =
      let index : suc (length bs) - 1 ≡ length bs = omega arith in
      ground (
        arith,
        index,
        write_array-fits dest (b ∷ bs),
        get_elem?-overlay dest b bs,
        get_elem?-overlay_first dest b bs,
      )

  -- A copy longer than the array of the caller is undefined.
  pub fetch_message_overruns :
      (bs : List ℕ)
      → 0 < length bs
      → length bs ≤ max_message_length
      → length dest < length bs
      → w.copy_in s.m_in.source address (length bs) ≡ some bs
      → fetch_message w address (length bs) dest s ≡ fault
  unfolding fetch_message datacopy
  fetch_message_overruns bs pos le long copied = ground (arith, write_array_overruns dest bs long)

  -- A length of more than 256, or of 0 or less as an `int`, is refused before anything is copied.
  pub fetch_message_refused :
      (len : ℕ)
      → (max_message_length < len
          → len < 2 ^ 31
          → fetch_message w address len dest s
            ≡ ok (record {
              reply = egeneric;
              dest = dest;
              state = record s { err_code = some emsgsize };
            }))
        × ((len ≡ 0) ⊎ (2 ^ 31 ≤ len)
            → fetch_message w address len dest s
              ≡ ok (record {
                reply = egeneric;
                dest = dest;
                state = record s { err_code = some einval };
              }))
  unfolding fetch_message
  fetch_message_refused len = (λ a b. ground arith, λ e. ground arith)
