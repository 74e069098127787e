-- ===== src/Intf/Multiplexer.antt =====
-- src/threadpool_intf.cc, include/ilias/threadpool_intf.h: `tp_service_multiplexer` and
-- `tp_client_multiplexer`.
use ilias_async.Base.{
  ℕ, ◌+◌, ◌-◌, ◌%◌, Bool, true, false, not, List, [], ◌∷◌, ◌++◌, ◌==◌, ltb, if◌then◌else◌, is_empty,
}
use ilias_async.Intf.{uint}
pub mod Wakeups

-- `work_avail`
pub data WorkAvail : Type 0 where
  no maybe yes_work detached : WorkAvail

abbrev pub same_avail : WorkAvail → WorkAvail → Bool
same_avail no no = true
same_avail maybe maybe = true
same_avail yes_work yes_work = true
same_avail detached detached = true
same_avail a b = false

-- The services of a `tp_service_multiplexer`, each a number: their `m_work_avail`; which of them still
-- have a service pointer; the lists `m_active` and `m_data`; and how often the work of their clients was
-- called.
pub record Multiplexer : Type 0 where
  pub avail : ℕ → WorkAvail
  pub attached : ℕ → Bool
  pub active : List ℕ
  pub all_data : List ℕ
  pub worked : ℕ → ℕ

abbrev pub mem : ℕ → List ℕ → Bool
mem x [] = false
mem x (y ∷ ys) = if x == y then true else mem x ys

abbrev pub erase : ℕ → List ℕ → List ℕ
erase x [] = []
erase x (y ∷ ys) = if x == y then ys else y ∷ erase x ys

-- `link_back` of a list: an element that is linked stays where it is.
abbrev pub link_back : ℕ → List ℕ → List ℕ
link_back x xs = if mem x xs then xs else xs ++ (x ∷ [])

abbrev pub set_avail : ℕ → WorkAvail → Multiplexer → Multiplexer
set_avail x a m = record m { avail = λ y. if x == y then a else m.avail y }

-- `activate`
unfoldable pub activate : ℕ → Multiplexer → Multiplexer
activate x m = record m { active = link_back x m.active }

-- `post_deactivate`
unfoldable pub post_deactivate : ℕ → Multiplexer → Multiplexer
unfolding activate
post_deactivate x m = elim (m.avail x) [
  | detached ↦ m
  | yes_work ↦ activate x m
  | maybe ↦ activate x m
  | no ↦ m
]

-- `invoke_work` after `do_work`, which has returned `rv`.
unfoldable pub worked_on : ℕ → Bool → Multiplexer → Multiplexer × Bool
unfolding activate
worked_on x true m = elim (m.avail x) [
  | detached ↦ (m, false)
  | yes_work ↦ (m, true)
  | maybe ↦ (set_avail x yes_work m, true)
  | no ↦ (activate x (set_avail x yes_work m), true)
]
worked_on x false m = elim (m.avail x) [ maybe ↦ (set_avail x no m, false) | a ↦ (m, false) ]

abbrev pub count_work : ℕ → Multiplexer → Multiplexer
count_work x m = record m { worked = λ y. if x == y then m.worked y + 1 else m.worked y }

-- `invoke_work`. The client's `do_work` returns `rv`, and changes what `during` says.
unfoldable pub invoke_work :
    ℕ → Bool → (Multiplexer → Multiplexer) → Multiplexer → Multiplexer × Bool
unfolding worked_on
invoke_work x rv during m = elim (m.avail x) [
  | yes_work ↦ worked_on x rv (during (count_work x (set_avail x maybe m)))
  | maybe ↦ worked_on x rv (during (count_work x m))
  | no ↦ (m, false)
  | detached ↦ (m, false)
]

-- `invoke_test`. The client's `has_work` returns `rv`.
unfoldable pub invoke_test : ℕ → Bool → Multiplexer → Multiplexer × Bool
invoke_test x rv m = elim (m.avail x) [
  | maybe ↦ (m, true)
  | yes_work ↦ (m, true)
  | detached ↦ (m, false)
  | no ↦ (if rv then set_avail x yes_work m else m, rv)
]

-- The loop of `wakeup`: each exchange may fail spuriously; the result is the variable `c`, or nothing
-- where it returns.
pub data Found : Type 0 where
  found : WorkAvail → Found
  returned : Found

unfoldable pub wakeup_loop : List Bool → ℕ → WorkAvail → Multiplexer → Multiplexer × Found
wakeup_loop [] x c m =
    if same_avail (m.avail x) c
    then (set_avail x yes_work m, if same_avail c detached then returned else found yes_work)
    else (m, found (m.avail x))
wakeup_loop (true ∷ spurious) x c m = (m, found (m.avail x))
wakeup_loop (false ∷ spurious) x c m =
    if same_avail (m.avail x) c
    then (if same_avail c yes_work
        then (m, found yes_work)
        else if same_avail c detached
        then (set_avail x yes_work m, returned)
        else wakeup_loop spurious x c (set_avail x yes_work m))
    else (m, found (m.avail x))

-- `wakeup` after its loop; `impl` is the `wakeup` of the client that is attached, 0 of none.
unfoldable pub woken : (ℕ → ℕ) → ℕ → ℕ → Multiplexer → Found → Multiplexer × ℕ
woken impl x n m returned = (m, 0)
woken impl x n m (found c) =
    (if same_avail c no then record m { active = link_back x m.active } else m, impl n)

-- `tp_service_multiplexer::threadpool_service::wakeup`
unfoldable pub wakeup : (ℕ → ℕ) → List Bool → ℕ → ℕ → Multiplexer → Multiplexer × ℕ
unfolding wakeup_loop woken
wakeup impl spurious x n m =
    if n == 0
    then (m, 0)
    else if not (m.attached x)
    then (m, 0)
    else woken impl x n (wakeup_loop spurious x maybe m).0 (wakeup_loop spurious x maybe m).1

-- `on_client_detach`
unfoldable pub on_client_detach : ℕ → Multiplexer → Multiplexer
on_client_detach x m =
    if m.attached x then record (set_avail x detached m) { active = link_back x m.active } else m

-- One element of the loop in `do_work`: the service `x` is removed where `invoke_work` returns false.
unfoldable pub work_on : ℕ → Bool → (Multiplexer → Multiplexer) → Multiplexer → Multiplexer
unfolding invoke_work post_deactivate
work_on x rv during m =
    let (k, more) = invoke_work x rv during m in
    let gone = post_deactivate x (record k { active = erase x k.active }) in
    if more
    then k
    else if same_avail (gone.avail x) detached
    then record gone { all_data = erase x gone.all_data }
    else gone

-- One element of the loop in `has_work`.
unfoldable pub test_on : ℕ → Bool → Multiplexer → Multiplexer
unfolding invoke_test
test_on x rv m =
    let (k, more) = invoke_test x rv m in if more then k else record k { active = erase x k.active }

-- A client in the list of a `tp_client_multiplexer`: what its `wakeup` returns, and `has_service`.
pub record Client : Type 0 where
  pub wakes : ℕ → ℕ
  pub has_service : Bool

abbrev pub min : ℕ → ℕ → ℕ
min a b = if ltb b a then b else a

-- The loop of `tp_client_multiplexer::threadpool_service::wakeup`: `rv`, and the clients that stay.
unfoldable pub wakeup_clients : ℕ → ℕ → List Client → ℕ × List Client
wakeup_clients n rv [] = (rv, [])
wakeup_clients n rv (c ∷ cs) =
    let (sum, kept) = wakeup_clients n ((rv + min (n - rv) (c.wakes n)) % uint) cs in
    (sum, if c.has_service then kept else c ∷ kept)

-- `tp_client_multiplexer::threadpool_service::wakeup`
unfoldable pub wakeup_all : Bool → ℕ → List Client → ℕ × List Client
unfolding wakeup_clients
wakeup_all attached n cs = if attached then wakeup_clients n 0 cs else (0, cs)
