-- ===== src/Threadpool.antt =====
-- src/threadpool.cc: `threadpool::impl` and its workers. A function is a whole call, with nothing in
-- between; what other threads do between the atomic steps of `must_die` is an argument of it.
pub mod Accounting
pub mod Sizes
pub mod Resize
pub mod Settle
pub mod Dying
pub mod Active
mod Tests
use mathlib.Core.Option.{Option, none, some}
use ilias_async.Base.{
  ℕ, zero, suc, ◌+◌, ◌-◌, ◌%◌, ◌^◌, Bool, true, false, List, [], ◌∷◌, ◌++◌, ltb, leb, ◌==◌, ◌||◌,
  if◌then◌else◌, Checked, ok, check, ◌>>=◌, length,
}

-- `thread_state`
pub data ThreadState : Type 0 where
  busy sleep_test sleep dying dead : ThreadState

abbrev pub is_dead : ThreadState → Bool
is_dead dead = true
is_dead s = false

abbrev pub same : ThreadState → ThreadState → Bool
same busy busy = true
same sleep_test sleep_test = true
same sleep sleep = true
same dying dying = true
same dead dead = true
same s t = false

-- An `unsigned int`.
abbrev pub uint : ℕ
uint = 2 ^ 32

-- A worker is its place in `workers`, its `m_state`. `m_idle` and `m_dead` begin at their front.
pub record Pool : Type 0 where
  pub n_threads : ℕ
  pub n_oversize : ℕ
  pub n_active : ℕ
  pub idle : List ℕ
  pub dead_list : List ℕ
  pub workers : List ThreadState

-- Nothing is left of a worker that is not there.
abbrev pub state_at : List ThreadState → ℕ → ThreadState
state_at [] w = dead
state_at (s ∷ ss) zero = s
state_at (s ∷ ss) (suc w) = state_at ss w

abbrev pub set_state : List ThreadState → ℕ → ThreadState → List ThreadState
set_state [] w t = []
set_state (s ∷ ss) zero t = t ∷ ss
set_state (s ∷ ss) (suc w) t = s ∷ set_state ss w t

abbrev pub put : ℕ → ThreadState → Pool → Pool
put w s p = record p { workers = set_state p.workers w s }

-- `worker::transition`
unfoldable pub transition : ℕ → ThreadState → ThreadState → Pool → Pool × Bool
transition w expect set p =
    if same (state_at p.workers w) expect then (put w set p, true) else (p, false)

-- `worker::wakeup`
unfoldable pub wakeup_worker : ℕ → Pool → Pool × Bool
unfolding transition
wakeup_worker w p =
    let first = transition w sleep_test busy p in
    if first.1 then first else transition w sleep busy p

-- What `worker::kill` says of the state that its exchange replaces.
abbrev pub killed : ThreadState → Checked Bool
killed dying = ok false
killed dead = check false (ok false)
killed s = ok true

-- `worker::kill`
unfoldable pub kill : ℕ → Pool → Checked (Pool × Bool)
kill w p = killed (state_at p.workers w) >>= λ done. ok (put w dying p, done)

-- `impl::wakeup`: the loop pops at most as often as there are idle threads. The result has the count.
unfoldable pub wakeup_loop : ℕ → ℕ → List ℕ → Pool → Pool × ℕ
unfolding wakeup_worker
wakeup_loop n c [] p = (p, c)
wakeup_loop n c (i ∷ is) p =
    let woken = wakeup_worker i (record p { idle = is }) in
    let rest = wakeup_loop n (if woken.1 then c + 1 else c) is woken.0 in
    if ltb c n then rest else (p, c)

unfoldable pub wakeup : ℕ → Pool → Pool × ℕ
unfolding wakeup_loop
wakeup n p = wakeup_loop n 0 p.idle p

abbrev pub min : ℕ → ℕ → ℕ
min a b = if ltb b a then b else a

-- The loop of `reduce_oversize` with `expected` in its variable `oversize`. Each of `seen` is what an
-- exchange that failed has loaded, spuriously or since another thread was faster; from then on the
-- value is `actual`. The result is the reduce count.
unfoldable pub reduce_loop : List ℕ → ℕ → ℕ → ℕ → ℕ
reduce_loop [] expected limit actual =
    if expected == 0
    then 0
    else if expected == actual
    then min expected limit
    else if actual == 0
    then 0
    else min actual limit
reduce_loop (s ∷ seen) expected limit actual =
    let rest = reduce_loop seen s limit actual in if expected == 0 then 0 else rest

-- `reduce_oversize`
unfoldable pub reduce_oversize : List ℕ → ℕ → Pool → Pool × ℕ
unfolding reduce_loop
reduce_oversize seen limit p =
    let reduce = reduce_loop seen limit limit p.n_oversize in
    (record p { n_oversize = p.n_oversize - reduce }, reduce)

-- `increase_oversize`
unfoldable pub increase_oversize : ℕ → Pool → Pool
unfolding wakeup
increase_oversize add p = (wakeup add (record p { n_oversize = (p.n_oversize + add) % uint })).0

-- `create_worker`, with `assign_thread`
unfoldable pub create_worker : Pool → Pool
create_worker p = record p { workers = p.workers ++ busy ∷ []; n_active = (p.n_active + 1) % uint }

-- The growing loop of `set_nthreads`, that has `missing` workers to create; the one after the first
-- `room` throws. The result tells whether none did.
unfoldable pub grow : ℕ → ℕ → Pool → Pool × Bool
unfolding create_worker
grow zero room p = (p, true)
grow (suc missing) zero p = (p, false)
grow (suc missing) (suc room) p = grow missing room (create_worker p)

-- `m_idle.pop_back()`
abbrev pub back : List ℕ → Option ℕ
back [] = none
back (i ∷ []) = some i
back (i ∷ j ∷ is) = back (j ∷ is)

abbrev pub but_back : List ℕ → List ℕ
but_back [] = []
but_back (i ∷ []) = []
but_back (i ∷ j ∷ is) = i ∷ but_back (j ∷ is)

-- The shrinking loop of `set_nthreads`, for at most `turns` turns. The result has `old`.
unfoldable pub kill_idle : ℕ → ℕ → ℕ → Pool → Checked (Pool × ℕ)
unfolding kill
kill_idle zero old n p = ok (p, old)
kill_idle (suc turns) old n p =
    if ltb n old
    then elim (back p.idle) [
      | none ↦ ok (p, old)
      | some i ↦ kill i (record p { idle = but_back p.idle }) >>= λ (q, done).
          kill_idle turns (if done then old - 1 else old) n q
    ]
    else ok (p, old)

-- The worker that runs `set_nthreads` kills itself.
unfoldable pub kill_self : Option ℕ → ℕ → ℕ → Pool → Checked (Pool × ℕ)
unfolding kill
kill_self none old n p = ok (p, old)
kill_self (some w) old n p =
    if ltb n old
    then (kill w p >>= λ (q, done). ok (q, if done then old - 1 else old))
    else ok (p, old)

-- The end of `set_nthreads`
unfoldable pub publish : ℕ → ℕ → Pool → Pool
unfolding increase_oversize
publish old n p = if ltb n old then increase_oversize (old - n) p else p

unfoldable pub shrink : Option ℕ → ℕ → ℕ → Pool → Checked Pool
unfolding kill_idle kill_self publish
shrink self old n p = kill_idle (length p.idle) old n p >>= λ (q, old').
    kill_self self old' n q >>= λ (r, old''). ok (publish old'' n r)

-- `set_nthreads` of a thread that is the worker `self`, if any. The result tells whether it returns
-- or throws.
unfoldable pub set_nthreads : List ℕ → ℕ → Option ℕ → ℕ → Pool → Checked (Pool × Bool)
unfolding reduce_oversize grow shrink
set_nthreads seen room self n p =
    let q = record p { n_threads = n } in
    let reduced = reduce_oversize seen (n - p.n_threads) q in
    let grown = grow (n - p.n_threads - reduced.1) room reduced.0 in
    if ltb p.n_threads n then ok grown else shrink self p.n_threads n q >>= λ r. ok (r, true)

-- The three transitions of `must_die`, the first that succeeds.
unfoldable pub die_now : (ℕ → Pool → Pool) → ℕ → Pool → Pool × Bool
unfolding transition
die_now rival w p =
    let first = transition w busy dying (rival 1 p) in
    let second = transition w sleep_test dying (rival 2 first.0) in
    let third = transition w sleep dying (rival 3 second.0) in
    if first.1 then first else if second.1 then second else third

abbrev pub marked : ThreadState → Bool
marked dying = true
marked dead = true
marked s = false

-- `must_die`; `rival k` is what other threads do between its `k`-th atomic step and the next one.
unfoldable pub must_die : List ℕ → (ℕ → Pool → Pool) → ℕ → Pool → Pool × Bool
unfolding reduce_oversize increase_oversize die_now
must_die seen rival w p =
    let reduced = reduce_oversize seen 1 (rival 0 p) in
    let tried = die_now rival w reduced.0 in
    if marked (state_at p.workers w)
    then (p, true)
    else if reduced.1 == 0
    then (reduced.0, false)
    else if tried.1
    then tried
    else (increase_oversize 1 (rival 4 tried.0), false)

abbrev pub erase : ℕ → List ℕ → List ℕ
erase w [] = []
erase w (i ∷ is) = if w == i then erase w is else i ∷ erase w is

-- The beginning of `do_sleep`, up to the wait: whether the worker is to wait. The service `has_work`.
unfoldable pub go_to_sleep : Bool → ℕ → Pool → Pool × Bool
unfolding transition
go_to_sleep has_work w p =
    let tested = transition w busy sleep_test p in
    let published = record tested.0 { idle = w ∷ tested.0.idle } in
    let gone = transition w sleep_test (if has_work then busy else sleep) published in
    if tested.1 then (gone.0, if has_work then false else gone.1) else (p, false)

-- The destructor of `idle_set_guard`
unfoldable pub leave_idle : ℕ → Pool → Pool
leave_idle w p = record p { idle = erase w p.idle }

-- The epilogue of `_run`; with `collect` the worker destroys the pool itself.
unfoldable pub finish : Bool → ℕ → Pool → Checked Pool
finish collect w p = check (ltb 0 p.n_active) (
    ok (record p {
      workers = set_state p.workers w dead;
      n_active = p.n_active - 1;
      dead_list = if collect then p.dead_list else p.dead_list ++ w ∷ [];
    }))

-- `impl::collect`, with the workers that it joins and deletes.
unfoldable pub collect_loop : ℕ → List ℕ → List ℕ × List ℕ
collect_loop zero ds = (ds, [])
collect_loop (suc count) [] = ([], [])
collect_loop (suc count) (d ∷ ds) = let rest = collect_loop count ds in (rest.0, d ∷ rest.1)

unfoldable pub collect : ℕ → Pool → Pool × List ℕ
unfolding collect_loop
collect count p = (
  record p { dead_list = (collect_loop count p.dead_list).0 },
  (collect_loop count p.dead_list).1,
)
