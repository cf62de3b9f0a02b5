-- ===== src/ArrayMerge/Main/Phases.antt =====
-- Where the thread that main is starting may be, at each call of main.
use gjworks.Common.{ℕ, ◌≡◌, refl, ap, ◌⊎◌, inl, inr, Bool, true, false}
use gjworks.ArrayMerge.Main.{
  Master, creating, locking, to_wait, waiting, waking, to_unlock, joining, finished, failed, Worker,
  unborn, starting, signalling, unlocking, placing, ended, signal,
}

-- The thread `k` has read its own index and let go of the mutex.
abbrev pub Past : ℕ → Worker → Type 0
Past k w = (w ≡ placing k) ⊎ (w ≡ ended)

-- At the call `m` of main with loop counter `i`: how far the thread `i` is, and whether the mutex
-- is taken. A `placing` or `ended` one at `waiting` has signalled too early.
abbrev pub Now : Master → ℕ → Worker → Bool → Type 0
Now creating i unborn b = b ≡ false
Now locking i starting b = b ≡ false
Now locking i (signalling c) b = (c ≡ i) × (b ≡ true)
Now locking i (unlocking c) b = (c ≡ i) × (b ≡ true)
Now locking i (placing c) b = (c ≡ i) × (b ≡ false)
Now locking i ended b = b ≡ false
Now to_wait i starting b = b ≡ true
Now to_wait i (placing c) b = (c ≡ i) × (b ≡ true)
Now to_wait i ended b = b ≡ true
Now waiting i starting b = b ≡ false
Now waiting i (signalling c) b = (c ≡ i) × (b ≡ true)
Now waiting i (placing c) b = (c ≡ i) × (b ≡ false)
Now waiting i ended b = b ≡ false
Now waking i (unlocking c) b = (c ≡ i) × (b ≡ true)
Now waking i (placing c) b = (c ≡ i) × (b ≡ false)
Now waking i ended b = b ≡ false
Now to_unlock i (placing c) b = (c ≡ i) × (b ≡ true)
Now to_unlock i ended b = b ≡ true
Now (joining j) i unborn b = b ≡ false
Now finished i unborn b = b ≡ false
Now failed i unborn b = b ≡ false
Now _ _ _ _ = ⊥

pub Now-creating : (i : ℕ) (w : Worker) (b : Bool) → Now creating i w b → (w ≡ unborn) × (b ≡ false)
Now-creating i unborn b h = (refl, h)
Now-creating i starting b h = absurd h
Now-creating i (signalling c) b h = absurd h
Now-creating i (unlocking c) b h = absurd h
Now-creating i (placing c) b h = absurd h
Now-creating i ended b h = absurd h

pub Now-locking :
    (i : ℕ) (w : Worker) (b : Bool) → b ≡ false → Now locking i w b → Now to_wait i w true
Now-locking i unborn b e h = absurd h
Now-locking i starting b e h = refl
Now-locking i (signalling c) b e (_, t) = cc
Now-locking i (unlocking c) b e (_, t) = cc
Now-locking i (placing c) b e (h, _) = (h, refl)
Now-locking i ended b e h = refl

pub Now-to_wait : (i : ℕ) (w : Worker) (b : Bool) → Now to_wait i w b → Now waiting i w false
Now-to_wait i unborn b h = absurd h
Now-to_wait i starting b h = refl
Now-to_wait i (signalling c) b h = absurd h
Now-to_wait i (unlocking c) b h = absurd h
Now-to_wait i (placing c) b (h, _) = (h, refl)
Now-to_wait i ended b h = refl

pub Now-waking :
    (i : ℕ) (w : Worker) (b : Bool) → b ≡ false → Now waking i w b → Now to_unlock i w true
Now-waking i unborn b e h = absurd h
Now-waking i starting b e h = absurd h
Now-waking i (signalling c) b e h = absurd h
Now-waking i (unlocking c) b e (_, t) = cc
Now-waking i (placing c) b e (h, _) = (h, refl)
Now-waking i ended b e h = refl

pub Now-to_unlock : (i : ℕ) (w : Worker) (b : Bool) → Now to_unlock i w b → Past i w
Now-to_unlock i unborn b h = absurd h
Now-to_unlock i starting b h = absurd h
Now-to_unlock i (signalling c) b h = absurd h
Now-to_unlock i (unlocking c) b h = absurd h
Now-to_unlock i (placing c) b (h, _) = inl (ap placing h)
Now-to_unlock i ended b h = inr refl

pub Now-starting :
    (m : Master) (i : ℕ) (b : Bool) → b ≡ false → Now m i starting b → Now m i (signalling i) true
Now-starting creating i b e h = absurd h
Now-starting locking i b e h = (refl, refl)
Now-starting to_wait i b e h = cc
Now-starting waiting i b e h = (refl, refl)
Now-starting waking i b e h = absurd h
Now-starting to_unlock i b e h = absurd h
Now-starting (joining j) i b e h = absurd h
Now-starting finished i b e h = absurd h
Now-starting failed i b e h = absurd h

pub Now-signalling :
    (m : Master) (i c : ℕ) (b : Bool) → Now m i (signalling c) b → Now (signal m) i (unlocking c) b
Now-signalling creating i c b h = absurd h
Now-signalling locking i c b h = h
Now-signalling to_wait i c b h = absurd h
Now-signalling waiting i c b h = h
Now-signalling waking i c b h = absurd h
Now-signalling to_unlock i c b h = absurd h
Now-signalling (joining j) i c b h = absurd h
Now-signalling finished i c b h = absurd h
Now-signalling failed i c b h = absurd h

pub Now-unlocking :
    (m : Master) (i c : ℕ) (b : Bool) → Now m i (unlocking c) b → Now m i (placing c) false
Now-unlocking creating i c b h = absurd h
Now-unlocking locking i c b (h, _) = (h, refl)
Now-unlocking to_wait i c b h = absurd h
Now-unlocking waiting i c b h = absurd h
Now-unlocking waking i c b (h, _) = (h, refl)
Now-unlocking to_unlock i c b h = absurd h
Now-unlocking (joining j) i c b h = absurd h
Now-unlocking finished i c b h = absurd h
Now-unlocking failed i c b h = absurd h

pub Now-placing :
    (m : Master) (i c : ℕ) (b : Bool) → Now m i (placing c) b → (c ≡ i) × Now m i ended b
Now-placing creating i c b h = absurd h
Now-placing locking i c b h = h
Now-placing to_wait i c b h = h
Now-placing waiting i c b h = h
Now-placing waking i c b h = h
Now-placing to_unlock i c b h = h
Now-placing (joining j) i c b h = absurd h
Now-placing finished i c b h = absurd h
Now-placing failed i c b h = absurd h
