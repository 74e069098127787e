-- ===== src/Monitor/Promises.antt =====
-- src/monitor.cc: what becomes of the promises that wait for a token.
use ilias_async.Base.{ℕ, ◌+◌, ◌≡◌, refl, Bool, List, [], ◌∷◌, ◌++◌, ok, arith, ◌==◌, if◌then◌else◌}
use ilias_async.Monitor.{
  Access, none, read, upgrade, write, Monitor, Grants, unlock_, release_count, unlock_readers,
  unlock_upgrades, unlock_writer, grant_all, upgrade_to_write_,
}

-- How often a promise stands in a list.
abbrev pub count : ℕ → List ℕ → ℕ
count x [] = 0
count x (p ∷ ps) = (if x == p then 1 else 0) + count x ps

abbrev pub count_writers : ℕ → List (Access × ℕ) → ℕ
count_writers x [] = 0
count_writers x ((a, p) ∷ q) = (if x == p then 1 else 0) + count_writers x q

abbrev pub granted : ℕ → Grants → ℕ
granted x [] = 0
granted x ((p, a) ∷ gs) = (if x == p then 1 else 0) + granted x gs

abbrev pub waiting : ℕ → Monitor → ℕ
waiting x m = count x m.r_queue + count x m.u_queue + count_writers x m.w_queue

count_writers-append :
    (x : ℕ) (q r : List (Access × ℕ))
    → count_writers x (q ++ r) ≡ count_writers x q + count_writers x r
count_writers-append x [] r = omega arith
count_writers-append x ((a, p) ∷ q) r = omega (arith, count_writers-append x q r)

granted-grant_all : (x : ℕ) (a : Access) (ps : List ℕ) → granted x (grant_all a ps) ≡ count x ps
granted-grant_all x a [] = refl
granted-grant_all x a (p ∷ ps) = omega (arith, granted-grant_all x a ps)

pub upgrade_to_write_-promises :
    (x p : ℕ) (m : Monitor)
    → let (m', gs) = upgrade_to_write_ p m in
      granted x gs + waiting x m' ≡ waiting x m + (if x == p then 1 else 0)
unfolding upgrade_to_write_
upgrade_to_write_-promises x p m = ground arith

pub unlock_readers-promises :
    (x : ℕ) (m : Monitor)
    → let (m', gs) = unlock_readers m in granted x gs + waiting x m' ≡ waiting x m
unfolding unlock_readers
unlock_readers-promises x m = ground (arith, granted-grant_all x read m.r_queue)

unlock_writer-promises :
    (x : ℕ) (q : List (Access × ℕ)) (m : Monitor) {m' : Monitor} {gs : Grants} {more : Bool}
    → m.w_queue ≡ q
    → unlock_writer q m ≡ ok (m', gs, more)
    → granted x gs + waiting x m' ≡ waiting x m
unfolding unlock_writer
unlock_writer-promises x [] m h e = ground (arith, unlock_readers-promises x m)
unlock_writer-promises x ((a, p) ∷ q) m h e = ground (arith, unlock_readers-promises x m)

unlock_upgrades-promises :
    (x : ℕ) (q : List ℕ) (m : Monitor) {m' : Monitor} {gs : Grants} {more : Bool}
    → m.u_queue ≡ q
    → unlock_upgrades q m ≡ ok (m', gs, more)
    → granted x gs + waiting x m' ≡ waiting x m
unfolding unlock_upgrades
unlock_upgrades-promises x [] m h e = unlock_writer-promises x m.w_queue m refl e
unlock_upgrades-promises x (p ∷ q) m h e = ground (arith, granted-grant_all x write (p ∷ q))

-- Giving back a token fulfils some of the promises that wait and leaves the others waiting: none is
-- lost, and none is fulfilled twice.
pub unlock_-promises :
    (x : ℕ) (a : Access) (m : Monitor) {m' : Monitor} {gs : Grants} {more : Bool}
    → unlock_ a m ≡ ok (m', gs, more)
    → granted x gs + waiting x m' ≡ waiting x m
unfolding unlock_
unlock_-promises x none m e = ground arith
unlock_-promises x read m e = unlock_upgrades-promises x m.u_queue (release_count read m) refl e
unlock_-promises x upgrade m e =
    unlock_upgrades-promises x m.u_queue (release_count upgrade m) refl e
unlock_-promises x write m e = unlock_upgrades-promises x m.u_queue (release_count write m) refl e
