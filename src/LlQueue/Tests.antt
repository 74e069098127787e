-- ===== src/LlQueue/Tests.antt =====
-- Runs of a queue with the head of its list at 1.
use ilias_async.Base.{true, List, [], ◌∷◌, arith}
use ilias_async.LlList.Refine.{Represents, Yields}
use ilias_async.LlList.Whole.{new_list, new_list-Represents}
use ilias_async.LlQueue.{
  Request, Reply, pushes_back, pushes_front, pops, counts, asks, done, refused, popped, counted,
  answer, serve_all,
}
use ilias_async.LlQueue.Fifo.{fifo, fifos, queue_refines}

abbrev some_requests : List Request
some_requests =
    pushes_back 2
    ∷ pushes_back 3
    ∷ pushes_back 0
    ∷ pushes_front 5
    ∷ counts
    ∷ pops
    ∷ pops
    ∷ pops
    ∷ pops
    ∷ asks
    ∷ []

abbrev some_replies : List Reply
some_replies =
    done
    ∷ done
    ∷ refused
    ∷ done
    ∷ counted 3
    ∷ popped 5
    ∷ popped 2
    ∷ popped 3
    ∷ popped 0
    ∷ answer true
    ∷ []

queue_refines_example :
    Yields (λ k. Represents 1 k []) some_replies (serve_all 11 1 some_requests (new_list 1))
unfolding fifos fifo
queue_refines_example =
    queue_refines 11 1 some_requests (new_list 1) []
      (
        omega arith,
        (omega arith, (omega arith, (omega arith, (tt, (tt, (tt, (tt, (tt, (tt, tt))))))))),
      )
      (omega arith) (omega arith) (new_list-Represents 1 (omega arith))
