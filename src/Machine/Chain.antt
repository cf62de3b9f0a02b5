-- ===== src/Machine/Chain.antt =====
-- NULL-terminated lists in the heap, as lists of addresses with their structs.
use gjworks.Common.{
  ℕ, zero, suc, ◌<◌, ◌≡◌, ◌≢◌, sym, ◌∙◌, List, [], ◌∷◌, Bool, true, Option, none, some, arith,
  length, All, if◌then◌else◌,
}
use gjworks.Machine.{ok, Heap, Linked, update, load-some, find_last, attach}

-- `a` is not the address of a struct of the list.
abbrev pub Absent : {C : Type 0} → ℕ → List (ℕ × C) → Type 0
Absent a l = All (λ e. e.0 ≢ a) l

module _ {C : Type 0} ⦃link : Linked C⦄ where
  -- From `p` the `next` pointers lead through exactly the structs of the list, each at its own
  -- address, to NULL.
  abbrev pub Chain : Heap C → ℕ → List (ℕ × C) → Type 0
  Chain h p [] = p ≡ 0
  Chain h p ((a, c) ∷ l) = (p ≡ a) × (a ≢ 0) × (h a ≡ some c) × Absent a l × Chain h (link.next c) l

  -- The list with `(a, d)` behind its last struct.
  unfoldable pub snoc : List (ℕ × C) → ℕ → C → List (ℕ × C)
  snoc [] a d = (a, d) ∷ []
  snoc ((b, c) ∷ []) a d = (b, link.set_next c a) ∷ (a, d) ∷ []
  snoc (x ∷ y ∷ l) a d = x ∷ snoc (y ∷ l) a d

  -- A write elsewhere keeps a chain.
  pub Chain-update :
      (h : Heap C) (p : ℕ) (l : List (ℕ × C)) (a : ℕ) (v : Option C)
      → Absent a l
      → Chain h p l
      → Chain (update h a v) p l
  Chain-update h p [] a v away ch = ch
  Chain-update h p ((b, c) ∷ l) a v away ch =
      (ch.0, ch.1, ground arith, ch.3, Chain-update h (link.next c) l a v away.1 ch.4)

  pub Absent-snoc :
      (l : List (ℕ × C)) (a : ℕ) (d : C) (b : ℕ) → Absent b l → b ≢ a → Absent b (snoc l a d)
  unfolding snoc
  Absent-snoc [] a d b away ne = (λ e. ne (sym e), tt)
  Absent-snoc ((x, c) ∷ []) a d b away ne = (away.0, (λ e. ne (sym e), tt))
  Absent-snoc (x ∷ y ∷ l) a d b away ne = (away.0, Absent-snoc (y ∷ l) a d b away.1 ne)

  -- The struct that the loop of `find_last` stops at.
  unfoldable pub last : ℕ × C → List (ℕ × C) → ℕ × C
  last x [] = x
  last x (y ∷ l) = last y l

  find_last-Chain :
      (fuel : ℕ) (h : Heap C) (p : ℕ) (x : ℕ × C) (l : List (ℕ × C))
      → Chain h p (x ∷ l)
      → length l < fuel
      → find_last fuel h p ≡ ok (last x l).0
  unfolding find_last last
  find_last-Chain zero h p x l ch lt = absurd (omega arith)
  find_last-Chain (suc fuel) h p (a, c) [] ch lt = ground (arith, load-some h p c)
  find_last-Chain (suc fuel) h p (a, c) ((b, d) ∷ l) ch lt =
      ground
        (arith, load-some h p c, find_last-Chain fuel h (link.next c) (b, d) l ch.4 (omega arith))

  pub last-cell :
      (h : Heap C) (p : ℕ) (x : ℕ × C) (l : List (ℕ × C))
      → Chain h p (x ∷ l)
      → ((last x l).0 ≢ 0) × (h (last x l).0 ≡ some (last x l).1)
  unfolding last
  last-cell h p (a, c) [] ch = (ch.1, ch.2)
  last-cell h p (a, c) (y ∷ l) ch = last-cell h (link.next c) y l ch.4

  pub last-Absent : (x : ℕ × C) (l : List (ℕ × C)) (a : ℕ) → Absent a (x ∷ l) → (last x l).0 ≢ a
  unfolding last
  last-Absent x [] a away = away.0
  last-Absent x (y ∷ l) a away = last-Absent y l a away.1

  -- `H` is the heap `h` but for the struct `d` at `a` and the link to it from the last struct.
  pub record Attached (h H : Heap C) (x : ℕ × C) (l : List (ℕ × C)) (a : ℕ) (d : C) : Type 0 where
    pub new : H a ≡ some d
    pub linked : H (last x l).0 ≡ some (link.set_next (last x l).1 a)
    pub kept : (q : ℕ) → q ≢ a → q ≢ (last x l).0 → H q ≡ h q

  -- The new struct makes the list one longer.
  pub Attached-Chain :
      (h H : Heap C) (p : ℕ) (x : ℕ × C) (l : List (ℕ × C)) (a : ℕ) (d : C)
      → Chain h p (x ∷ l)
      → a ≢ 0
      → Absent a (x ∷ l)
      → link.next d ≡ 0
      → Attached h H x l a d
      → Chain H p (snoc (x ∷ l) a d)
  unfolding snoc last
  Attached-Chain h H p (b, c) [] a d ch nz away end at =
      (ch.0, ch.1, at.linked, (λ e. away.0 (sym e), tt), (link.next-set c a, nz, at.new, tt, end))
  Attached-Chain h H p (b, c) (y ∷ l) a d ch nz away end at = (
    ch.0,
    ch.1,
    at.kept b away.0 (λ e. last-Absent y l b ch.3 (sym e)) ∙ ch.2,
    Absent-snoc (y ∷ l) a d b ch.3 away.0,
    Attached-Chain h H (link.next c) y l a d ch.4 nz away.1 end
        (record { new = at.new; linked = at.linked; kept = at.kept }),
  )

  -- The loop runs to the last struct and links `a` behind it.
  pub attach-Attached :
      (fuel : ℕ) (h : Heap C) (p : ℕ) (x : ℕ × C) (l : List (ℕ × C)) (a : ℕ) (d : C)
      → Chain h p (x ∷ l)
      → length l < fuel
      → Absent a (x ∷ l)
      → (H : Heap C) × (attach fuel h p a d ≡ ok H) × Attached h H x l a d
  unfolding attach
  attach-Attached fuel h p x l a d ch lt away =
      let (there, cell) = last-cell h p x l ch in
      let cell' : update h a (some d) (last x l).0 ≡ some (last x l).1 =
        ground (arith, last-Absent x l a away) in
      (
        update (update h a (some d)) (last x l).0 (some (link.set_next (last x l).1 a)),
        rw (find_last-Chain fuel h p x l ch lt, load-some (update h a (some d)) _ _ there cell'),
        record {
          new = ground (arith, last-Absent x l a away);
          linked = ground arith;
          kept = λ q ne ne'. ground arith;
        },
      )

module _ {C : Type 0} where
  -- The address of the first struct that passes the test, and NULL if none does.
  abbrev pub find_first : (C → Bool) → List (ℕ × C) → ℕ
  find_first test [] = 0
  find_first test ((a, c) ∷ l) = if test c then a else find_first test l

  -- The first struct that passes the test.
  abbrev pub find? : (C → Bool) → List (ℕ × C) → Option (ℕ × C)
  find? test [] = none
  find? test ((a, c) ∷ l) = if test c then some (a, c) else find? test l

  abbrev pub drop_last : List (ℕ × C) → List (ℕ × C)
  drop_last [] = []
  drop_last (x ∷ []) = []
  drop_last (x ∷ y ∷ l) = x ∷ drop_last (y ∷ l)

-- A struct that is found in a list stands at its address.
pub find?-Chain :
    {C : Type 0} ⦃link : Linked C⦄ (test : C → Bool) (h : Heap C) (p : ℕ) (l : List (ℕ × C)) (a : ℕ)
    (c : C)
    → Chain h p l
    → find? test l ≡ some (a, c)
    → (find_first test l ≡ a) × (a ≢ 0) × (h a ≡ some c) × (test c ≡ true)
find?-Chain test h p [] a c ch e = cc
find?-Chain ⦃link⦄ test h p ((b, d) ∷ l) a c ch e =
    ground (arith, ch.1, ch.2, find?-Chain test h (link.next d) l a c ch.4)
