-- ===== src/Threadpool/Settle.antt =====
-- src/threadpool.cc: the accounts after `set_nthreads`.
use mathlib.Core.Option.{Option}
use ilias_async.Base.{
  ◌∙◌, ℕ, ◌+◌, ◌-◌, ◌<◌, ◌≤◌, ◌≡◌, refl, Bool, true, false, List, ltb, arith, length, inl, inr,
  Bool-cases, Checked, ok, assert_failed, ◌>>=◌,
}
use ilias_async.Threadpool.{
  uint, Pool, reduce_loop, reduce_oversize, grow, kill_idle, kill_self, publish, shrink,
  set_nthreads,
}
use ilias_async.Threadpool.Accounting.{live, Sound}
use ilias_async.Threadpool.Sizes.{
  increase_oversize-n_threads, increase_oversize-Sound, reduce_loop-bounds,
}
use ilias_async.Threadpool.Resize.{
  Grown, grow-Grown, SelfAlive, Standing, kill_idle-Standing, kill_self-Standing,
}

-- The accounts after `set_nthreads` of a pool of `old` threads, where at most `room` threads can be
-- created.
pub Settled : ℕ → ℕ → ℕ → ℕ → Checked (Pool × Bool) → Type 0
Settled k n room old assert_failed = ⊥
Settled k n room old (ok (q, true)) = (q.n_threads ≡ n) × Sound k q
Settled k n room old (ok (q, false)) =
    (q.n_threads ≡ n) × (room + old < n) × (live q.workers < q.n_threads + q.n_oversize + k)

publish-Sound :
    (k n old : ℕ) (p : Pool) → n ≤ old → Sound (k + (old - n)) p → Sound k (publish old n p)
unfolding publish
publish-Sound k n old p hn h = elim (Bool-cases (ltb n old)) [
  | inl b ↦ rw b (increase_oversize-Sound k (old - n) p h)
  | inr b ↦ rw b (record {
    accounts = ground (arith, h.accounts);
    HasRoom = h.HasRoom;
    idle_alive = h.idle_alive;
  })
]

publish-n_threads : (n old : ℕ) (p : Pool) → (publish old n p).n_threads ≡ p.n_threads
unfolding publish
publish-n_threads n old p = ground (arith, increase_oversize-n_threads (old - n) p)

Shrunk : ℕ → ℕ → Checked Pool → Type 0
Shrunk k n assert_failed = ⊥
Shrunk k n (ok q) = (q.n_threads ≡ n) × Sound k q

publish-Shrunk :
    (self : Option ℕ) (k n : ℕ) (r : Checked (Pool × ℕ))
    → Standing self k n r
    → Shrunk k n (r >>= λ (q, old). ok (publish old n q))
unfolding Standing Shrunk
publish-Shrunk self k n assert_failed h = h
publish-Shrunk self k n (ok (q, old)) h =
    (publish-n_threads n old q ∙ h.1, publish-Sound k n old q h.0 h.2)

kill_self-Shrunk :
    (self : Option ℕ) (k n : ℕ) (r : Checked (Pool × ℕ))
    → Standing self k n r
    → Shrunk k n (r >>= λ (q, old). kill_self self old n q >>= λ (p, o). ok (publish o n p))
unfolding Standing Shrunk
kill_self-Shrunk self k n assert_failed h = h
kill_self-Shrunk self k n (ok (q, old)) h =
    publish-Shrunk self k n (kill_self self old n q)
      (kill_self-Standing self k n old q h.0 h.1 h.2 h.3)

shrink-Shrunk :
    (self : Option ℕ) (k n old : ℕ) (p : Pool)
    → n ≤ old
    → p.n_threads ≡ n
    → Sound (k + (old - n)) p
    → SelfAlive self p.workers
    → Shrunk k n (shrink self old n p)
unfolding shrink
shrink-Shrunk self k n old p hn ht h hs =
    kill_self-Shrunk self k n (kill_idle (length p.idle) old n p)
      (kill_idle-Standing self k n (length p.idle) old p hn ht h hs)

Shrunk-Settled :
    (k n room old : ℕ) (r : Checked Pool)
    → Shrunk k n r
    → Settled k n room old (r >>= λ q. ok (q, true))
unfolding Shrunk Settled
Shrunk-Settled k n room old assert_failed h = h
Shrunk-Settled k n room old (ok q) h = h

grow-Settled :
    (k n room m old : ℕ) (p : Pool) (r : Pool × Bool)
    → Grown m room p r
    → p.n_threads ≡ n
    → m + old ≤ n
    → live p.workers + m ≡ n + p.n_oversize + k
    → length p.workers + n < uint
    → Settled k n room old (ok r)
unfolding Settled
grow-Settled k n room m old p (q, true) g ht hm e hr = (
  g.threads ∙ ht,
  record {
    accounts = ground (arith, g.lives, g.returns, g.threads, g.oversize, e, ht);
    HasRoom = ground (arith, g.lengths, hr);
    idle_alive = g.idle_alive;
  },
)
grow-Settled k n room m old p (q, false) g ht hm e hr = (
  g.threads ∙ ht,
  ground (arith, g.returns),
  ground (arith, g.lives, g.returns, g.threads, g.oversize, e, ht),
)

-- Let a pool have as many workers that stay as its two counters say, and let no idle worker be dead,
-- nor the one that calls. Then `set_nthreads` fails no assertion, whatever the exchanges load. Where it
-- returns, the pool is to have `n` threads and the counters again say how many workers stay. It throws
-- only where more threads are missing than can be created, and then fewer workers stay than the
-- counters say.
pub set_nthreads-Settled :
    (seen : List ℕ) (room k : ℕ) (self : Option ℕ) (n : ℕ) (p : Pool)
    → length p.workers + n < uint
    → Sound k p
    → SelfAlive self p.workers
    → Settled k n room p.n_threads (set_nthreads seen room self n p)
unfolding set_nthreads reduce_oversize
set_nthreads-Settled seen room k self n p hr h hs =
    let missing = n - p.n_threads in
    let reduce = reduce_loop seen missing missing p.n_oversize in
    let bounds = reduce_loop-bounds seen missing missing p.n_oversize in
    let q = record p { n_threads = n; n_oversize = p.n_oversize - reduce } in
    elim (Bool-cases (ltb p.n_threads n)) [
      | inl b ↦ rw b (
          grow-Settled k n room (missing - reduce) p.n_threads q (grow (missing - reduce) room q)
            (grow-Grown (missing - reduce) room q h.idle_alive) refl (ground (arith, bounds.1))
            (ground (arith, h.accounts, bounds.0, bounds.1)) hr)
      | inr b ↦ rw b (
          Shrunk-Settled k n room p.n_threads
            (shrink self p.n_threads n (record p { n_threads = n }))
            (shrink-Shrunk self k n p.n_threads (record p { n_threads = n }) (ground arith) refl
              (record {
                accounts = ground (arith, h.accounts);
                HasRoom = h.HasRoom;
                idle_alive = h.idle_alive;
              })
              hs))
    ]
