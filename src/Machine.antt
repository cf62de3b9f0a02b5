-- ===== src/Machine.antt =====
-- How C code runs: a call returns, is undefined, or loops for ever; structs live in a heap that is
-- indexed by addresses, with 0 for NULL.
pub mod Chain
pub mod Array
use gjworks.Common.{
  ℕ, zero, suc, ◌≡◌, ◌≢◌, refl, ◌⊎◌, inl, inr, Option, none, some, arith, ◌==◌, if◌then◌else◌,
}

-- `fault` is undefined behaviour, such as a read through NULL or a freed pointer; `out_of_fuel` says
-- that a loop made more rounds than the fuel of the model.
pub data Run {ℓ} (A : Type ℓ) : Type ℓ where
  ok : A → Run A
  fault out_of_fuel : Run A

infixl 5 ◌>>=◌
abbrev pub ◌>>=◌ {ℓ κ} : {A : Type ℓ} {B : Type κ} → Run A → (A → Run B) → Run B
ok a >>= f = f a
fault >>= f = fault
out_of_fuel >>= f = out_of_fuel

-- To split on how a call ends and keep the equation.
pub Run-cases {ℓ} :
    {A : Type ℓ} (r : Run A) → ((a : A) × (r ≡ ok a)) ⊎ ((r ≡ fault) ⊎ (r ≡ out_of_fuel))
Run-cases (ok a) = inl (a, refl)
Run-cases fault = inr (inl refl)
Run-cases out_of_fuel = inr (inr refl)

-- All structs of one type, by address. `none` is an address that is not allocated, or freed.
abbrev pub Heap : Type 0 → Type 0
Heap C = ℕ → Option C

-- A struct with a `next` pointer.
pub record Linked (C : Type 0) : Type 0 where
  pub next : C → ℕ
  pub set_next : C → ℕ → C
  pub next-set : (c : C) (p : ℕ) → next (set_next c p) ≡ p

module _ {C : Type 0} where
  abbrev pub update : Heap C → ℕ → Option C → Heap C
  update h a c q = if a == q then c else h q

  -- `*p`
  unfoldable pub load : Heap C → ℕ → Run C
  load h p = if p == 0 then fault else elim (h p) [ none ↦ fault | some c ↦ ok c ]

  -- `*p = c`
  unfoldable pub store : Heap C → ℕ → C → Run (Heap C)
  store h p c = load h p >>= λ _. ok (update h p (some c))

  -- `free(p)`: nothing happens at NULL, and a second free is undefined.
  unfoldable pub free : Heap C → ℕ → Run (Heap C)
  unfolding load
  free h p = if p == 0 then ok h else load h p >>= λ _. ok (update h p none)

module _ {C : Type 0} ⦃link : Linked C⦄ where
  -- `while (p->next != NULL) p = p->next;`, with the last `p`
  pub find_last : ℕ → Heap C → ℕ → Run ℕ
  find_last zero h p = out_of_fuel
  find_last (suc fuel) h p = load h p >>= λ c.
      let rest = find_last fuel h (link.next c) in if link.next c == 0 then ok p else rest

  -- The loop, and then `p->next = malloc(…)`: the new struct, at `a`, holds `d`.
  unfoldable pub attach : ℕ → Heap C → ℕ → ℕ → C → Run (Heap C)
  unfolding find_last load store
  attach fuel h p a d = do
    b ← find_last fuel h p
    let h' = update h a (some d)
    c ← load h' b
    store h' b (link.set_next c a)

module _ {C : Type 0} (h : Heap C) (p : ℕ) where
  pub load-null : p ≡ 0 → load h p ≡ fault
  unfolding load
  load-null e = ground arith

  pub load-some : (c : C) → p ≢ 0 → h p ≡ some c → load h p ≡ ok c
  unfolding load
  load-some c nz e = ground arith

  -- A freed pointer cannot be read.
  pub load-freed : (q : ℕ) → p ≡ q → load (update h q none) p ≡ fault
  unfolding load
  load-freed q e = ground arith

  pub store-some : (c d : C) → p ≢ 0 → h p ≡ some c → store h p d ≡ ok (update h p (some d))
  unfolding store load
  store-some c d nz e = ground arith

  pub free-some : (c : C) → p ≢ 0 → h p ≡ some c → free h p ≡ ok (update h p none)
  unfolding free load
  free-some c nz e = ground arith
