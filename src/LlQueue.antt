-- ===== src/LlQueue.antt =====
-- src/ll_queue.cc, include/ilias/ll_queue-inl.h: `ll_qhead`, a queue on a list.
use ilias_async.Base.{ℕ, ◌==◌, ◌≢◌, Bool, List, [], ◌∷◌, if◌then◌else◌}
use ilias_async.LlList.Memory.{Memory, Run, returns, fails, runs_on, ◌>>=◌}
use ilias_async.LlList.Ops.{link_front, link_back, pop_front, empty}
use ilias_async.LlList.Whole.{size}
pub mod Fifo
mod Tests

-- `push_back_`, `pop_front_` and `push_front_`, of the queue whose list has the head `hd`.
unfoldable pub push_back_ : ℕ → ℕ → ℕ → Memory → Run Memory
unfolding link_back
push_back_ fuel hd x h = link_back fuel hd x h >>= λ r. returns r.0

unfoldable pub push_front_ : ℕ → ℕ → ℕ → Memory → Run Memory
unfolding link_front
push_front_ fuel hd x h = link_front fuel hd x h >>= λ r. returns r.0

unfoldable pub pop_front_ : ℕ → ℕ → Memory → Run (Memory × ℕ)
unfolding pop_front
pop_front_ fuel hd h = pop_front fuel hd h

-- What a call returns: an exception is `refused`.
pub data Reply : Type 0 where
  done refused : Reply
  popped counted : ℕ → Reply
  answer : Bool → Reply

-- `push_back` and `push_front`
unfoldable pub push_back : ℕ → ℕ → ℕ → Memory → Run (Memory × Reply)
unfolding push_back_
push_back fuel hd x h =
    if x == 0 then returns (h, refused) else push_back_ fuel hd x h >>= λ k. returns (k, done)

unfoldable pub push_front : ℕ → ℕ → ℕ → Memory → Run (Memory × Reply)
unfolding push_front_
push_front fuel hd x h =
    if x == 0 then returns (h, refused) else push_front_ fuel hd x h >>= λ k. returns (k, done)

-- The calls of a client.
pub data Request : Type 0 where
  pushes_back pushes_front : ℕ → Request
  pops counts asks : Request

unfoldable pub serve : ℕ → ℕ → Request → Memory → Run (Memory × Reply)
unfolding push_back push_front pop_front_ size empty
serve fuel hd (pushes_back x) h = push_back fuel hd x h
serve fuel hd (pushes_front x) h = push_front fuel hd x h
serve fuel hd pops h = pop_front_ fuel hd h >>= λ (k, e). returns (k, popped e)
serve fuel hd counts h = size fuel hd h >>= λ (k, n). returns (k, counted n)
serve fuel hd asks h = empty fuel hd h >>= λ b. returns (h, answer b)

unfoldable pub serve_all : ℕ → ℕ → List Request → Memory → Run (Memory × List Reply)
unfolding serve
serve_all fuel hd [] h = returns (h, [])
serve_all fuel hd (q ∷ qs) h =
    serve fuel hd q h >>= λ (k, r). serve_all fuel hd qs k >>= λ (m, rs). returns (m, r ∷ rs)
