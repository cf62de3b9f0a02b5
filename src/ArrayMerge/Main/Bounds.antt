-- ===== src/ArrayMerge/Main/Bounds.antt =====
-- The loop counter and the count, at each call of main.
use gjworks.Common.{ℕ, ◌≤◌, ◌<◌, ◌≡◌, ◌≢◌, refl, Bool, arith}
use gjworks.ArrayMerge.Main.{
  Master, creating, locking, to_wait, waiting, waking, to_unlock, joining, finished, failed, Worker,
  unborn, starting, signalling, unlocking, placing, ended, signal,
}
use gjworks.ArrayMerge.Main.Phases.{Now}
use gjworks.ArrayMerge.Main.Invariant.{master_steps, InBounds, counted_of, joined_of}

Now-joining : (j i : ℕ) (w : Worker) (b : Bool) → Now (joining j) i w b → w ≡ unborn
Now-joining j i unborn b h = refl
Now-joining j i starting b h = absurd h
Now-joining j i (signalling c) b h = absurd h
Now-joining j i (unlocking c) b h = absurd h
Now-joining j i (placing c) b h = absurd h
Now-joining j i ended b h = absurd h

Now-finished : (i : ℕ) (w : Worker) (b : Bool) → Now finished i w b → w ≡ unborn
Now-finished i unborn b h = refl
Now-finished i starting b h = absurd h
Now-finished i (signalling c) b h = absurd h
Now-finished i (unlocking c) b h = absurd h
Now-finished i (placing c) b h = absurd h
Now-finished i ended b h = absurd h

pub busy-InBounds :
    (size : ℕ) (m : Master) (i : ℕ) (w : Worker) (b : Bool)
    → Now m i w b
    → w ≢ unborn
    → InBounds size m i
    → i < size
busy-InBounds size creating i w b h ne lt = lt
busy-InBounds size locking i w b h ne lt = lt
busy-InBounds size to_wait i w b h ne lt = lt
busy-InBounds size waiting i w b h ne lt = lt
busy-InBounds size waking i w b h ne lt = lt
busy-InBounds size to_unlock i w b h ne lt = lt
busy-InBounds size (joining j) i w b h ne lt = absurd (ne (Now-joining j i w b h))
busy-InBounds size finished i w b h ne lt = absurd (ne (Now-finished i w b h))
busy-InBounds size failed i w b h ne lt = lt

pub i-le-size : (size : ℕ) (m : Master) (i : ℕ) → InBounds size m i → i ≤ size
i-le-size size creating i lt = omega arith
i-le-size size locking i lt = omega arith
i-le-size size to_wait i lt = omega arith
i-le-size size waiting i lt = omega arith
i-le-size size waking i lt = omega arith
i-le-size size to_unlock i lt = omega arith
i-le-size size (joining j) i lt = omega arith
i-le-size size finished i lt = omega arith
i-le-size size failed i lt = omega arith

pub counted-starting : (m : Master) (i : ℕ) (b : Bool) → Now m i starting b → counted_of m i ≡ i
counted-starting creating i b h = refl
counted-starting locking i b h = refl
counted-starting to_wait i b h = refl
counted-starting waiting i b h = refl
counted-starting waking i b h = refl
counted-starting to_unlock i b h = absurd h
counted-starting (joining j) i b h = refl
counted-starting finished i b h = refl
counted-starting failed i b h = refl

-- A signal is no call of main.
pub signal-same :
    (size : ℕ) (m : Master) (i : ℕ)
    → InBounds size m i
    → (counted_of (signal m) i ≡ counted_of m i)
      × InBounds size (signal m) i
      × (joined_of size (signal m) ≡ joined_of size m)
      × (master_steps size (signal m) i ≡ master_steps size m i)
signal-same size creating i h = (refl, h, refl, refl)
signal-same size locking i h = (refl, h, refl, refl)
signal-same size to_wait i h = (refl, h, refl, refl)
signal-same size waiting i h = (refl, h, refl, refl)
signal-same size waking i h = (refl, h, refl, refl)
signal-same size to_unlock i h = (refl, h, refl, refl)
signal-same size (joining j) i h = (refl, h, refl, refl)
signal-same size finished i h = (refl, h, refl, refl)
signal-same size failed i h = (refl, h, refl, refl)
