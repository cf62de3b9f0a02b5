-- ===== src/Mailbox/Blocked/Context.antt =====
-- saveContext, getContext and isSenderBlocked: a round trip.
use gjworks.Common.{
  ℕ, zero, suc, ◌+◌, ◌<◌, ◌≡◌, ◌≢◌, refl, Bool, true, false, Option, none, some, List, [], ◌∷◌,
  arith, length, ◌==◌, if◌then◌else◌,
}
use gjworks.Machine.{ok, fault, Heap, load-some, load-freed, update}
use gjworks.Machine.Chain.{Chain, Absent, snoc, find?, attach-Attached, Attached-Chain}
use gjworks.Mailbox.State.{blocked_link, BlockedSender, Call, Pm, World}
use gjworks.Mailbox.Blocked.{context, save_context, get_context, is_sender_blocked, delete_sender}

-- The call and the text that a blocked sender keeps.
abbrev pub kept_by : Option (ℕ × BlockedSender) → Option (Call × List ℕ)
kept_by none = none
kept_by (some e) = some (e.1.message_sender, e.1.msg)

abbrev pub is_some : {A : Type 0} → Option A → Bool
is_some none = false
is_some (some a) = true

is_some-kept_by : (o : Option (ℕ × BlockedSender)) → is_some (kept_by o) ≡ is_some o
is_some-kept_by none = refl
is_some-kept_by (some e) = refl

-- getContext gives the call and the text of the first context of that process slot.
pub get_context-eq-find? :
    (h : Heap BlockedSender) (fuel p who : ℕ) (l : List (ℕ × BlockedSender))
    → Chain h p l
    → length l < fuel
    → get_context fuel h p who ≡ ok (kept_by (find? (λ b. b.who_p == who) l))
unfolding get_context
get_context-eq-find? h zero p who l ch lt = absurd (omega arith)
get_context-eq-find? h (suc fuel) p who [] ch lt = ground arith
get_context-eq-find? h (suc fuel) p who ((a, b) ∷ l) ch lt =
    ground (arith, load-some h p b, get_context-eq-find? h fuel b.next who l ch.4 (omega arith))

pub is_sender_blocked-eq-find? :
    (h : Heap BlockedSender) (fuel p who : ℕ) (l : List (ℕ × BlockedSender))
    → Chain h p l
    → length l < fuel
    → is_sender_blocked fuel h p who ≡ ok (is_some (find? (λ b. b.who_p == who) l))
unfolding is_sender_blocked
is_sender_blocked-eq-find? h zero p who l ch lt = absurd (omega arith)
is_sender_blocked-eq-find? h (suc fuel) p who [] ch lt = ground arith
is_sender_blocked-eq-find? h (suc fuel) p who ((a, b) ∷ l) ch lt =
    ground
      (arith, load-some h p b, is_sender_blocked-eq-find? h fuel b.next who l ch.4 (omega arith))

find?-snoc :
    (l : List (ℕ × BlockedSender)) (a : ℕ) (d : BlockedSender) (who : ℕ)
    → find? (λ b. b.who_p == who) l ≡ none
    → kept_by (find? (λ b. b.who_p == who) (snoc l a d))
      ≡ (if d.who_p == who then some (d.message_sender, d.msg) else none)
unfolding snoc
find?-snoc [] a d who e = ground arith
find?-snoc ((b, c) ∷ []) a d who e = ground arith
find?-snoc ((b, c) ∷ y ∷ l) a d who e = ground (arith, find?-snoc (y ∷ l) a d who)

length-snoc :
    (l : List (ℕ × BlockedSender)) (a : ℕ) (d : BlockedSender) → length (snoc l a d) ≡ length l + 1
unfolding snoc
length-snoc [] a d = omega arith
length-snoc (x ∷ []) a d = omega arith
length-snoc (x ∷ y ∷ l) a d = omega (arith, length-snoc (y ∷ l) a d)

-- After saveContext for a process slot that had no context, the list of blocked senders is well
-- formed and one longer, isSenderBlocked is TRUE for the slot, and getContext gives back the call
-- and the text that were saved. Of the state only the contexts, their list and the next address of
-- `malloc` change.
pub save_context-get_context :
    (fuel : ℕ) (w : World) (call : Call) (who : ℕ) (msg : List ℕ) (s : Pm)
    (l : List (ℕ × BlockedSender))
    → Chain s.blocked s.g_blocked_senders l
    → length l + 1 < fuel
    → s.fresh ≢ 0
    → Absent s.fresh l
    → find? (λ b. b.who_p == who) l ≡ none
    → (h : Heap BlockedSender) × (g : ℕ) × (l' : List (ℕ × BlockedSender)) × (save_context fuel w
          call who msg s
        ≡ ok (record s { blocked = h; g_blocked_senders = g; fresh = s.fresh + 1 }))
      × Chain h g l'
      × (length l' ≡ length l + 1)
      × (is_sender_blocked fuel h g who ≡ ok true)
      × (get_context fuel h g who ≡ ok (some (call, msg)))
unfolding save_context context
save_context-get_context fuel w call who msg s [] ch lt nz away e =
    let d = context w s.fresh call who msg in
    let h : Heap BlockedSender = update s.blocked s.fresh (some d) in
    let l' : List (ℕ × BlockedSender) = (s.fresh, d) ∷ [] in
    let ch' : Chain h s.fresh l' = (refl, nz, ground arith, tt, refl) in
    (
      h,
      s.fresh,
      l',
      ground arith,
      ch',
      refl,
      ground (arith, is_sender_blocked-eq-find? h fuel s.fresh who l' ch' (omega arith)),
      ground (arith, get_context-eq-find? h fuel s.fresh who l' ch' (omega arith)),
    )
save_context-get_context fuel w call who msg s (x ∷ l) ch lt nz away e =
    let d = context w s.fresh call who msg in
    let (blocked, run, at) =
      attach-Attached fuel s.blocked s.g_blocked_senders x l s.fresh d ch (omega arith) away in
    let ch' =
      Attached-Chain s.blocked blocked s.g_blocked_senders x l s.fresh d ch nz away refl at in
    let short : length (snoc (x ∷ l) s.fresh d) < fuel =
      omega (arith, length-snoc (x ∷ l) s.fresh d) in
    (
      blocked,
      s.g_blocked_senders,
      snoc (x ∷ l) s.fresh d,
      ground (arith, ch.0, ch.1),
      ch',
      length-snoc (x ∷ l) s.fresh d,
      ground (
        arith,
        find?-snoc (x ∷ l) s.fresh d who e,
        is_some-kept_by (find? (λ b. b.who_p == who) (snoc (x ∷ l) s.fresh d)),
        is_sender_blocked-eq-find? blocked fuel s.g_blocked_senders who _ ch' short,
      ),
      ground (
        arith,
        find?-snoc (x ∷ l) s.fresh d who e,
        get_context-eq-find? blocked fuel s.g_blocked_senders who _ ch' short,
      ),
    )

-- deleteSender for the first of the blocked senders returns TRUE and frees its struct, to which
-- `g_blockedSenders` still points: the next isSenderBlocked, for any process slot, is undefined.
pub delete_sender_head_dangles :
    (h : Heap BlockedSender) (fuel g who : ℕ) (b : BlockedSender) (l : List (ℕ × BlockedSender))
    → Chain h g ((g, b) ∷ l)
    → b.who_p ≡ who
    → (h' : Heap BlockedSender) × (delete_sender fuel h g who ≡ ok (true, h'))
      × ((k other : ℕ) → is_sender_blocked (suc k) h' g other ≡ fault)
unfolding delete_sender is_sender_blocked
delete_sender_head_dangles h fuel g who b l ch e =
    (update h g none, ground (arith, load-some h g b), λ k other. ground (arith, load-freed h g g))
