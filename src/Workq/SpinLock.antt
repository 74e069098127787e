-- ===== src/Workq/SpinLock.antt =====
-- src/workq.cc: `atom_lck`, the spin lock of `workq_job` pointers where the platform has no atomic
-- operations on shared pointers.
use ilias_async.Base.{
  ℕ, ◌%◌, ltb, ◌≡◌, refl, Bool, true, false, List, [], ◌∷◌, arith, Checked, ok, assert_failed,
  check, ◌>>=◌,
}

-- The index of the lock of a pointer, from its hash: `& (N_ATOMS - 1)`.
abbrev pub n_atoms : ℕ
n_atoms = 16

unfoldable pub job_atomics_idx : ℕ → ℕ
job_atomics_idx hash = hash % n_atoms

-- The loop of `atomic_lock_jobptr` on its atomic, with what the atomic is when the loop is left. Each
-- of the list says whether an exchange fails spuriously; the later ones do not. After an exchange
-- that succeeds the next one finds the atomic set.
unfoldable pub spin : List Bool → Bool → Bool
spin [] atom = true
spin (true ∷ spurious) atom = atom
spin (false ∷ spurious) true = true
spin (false ∷ spurious) false = spin spurious true

-- `atomic_lock_jobptr` of a pointer with the given hash: the index, and the atomic.
unfoldable pub atomic_lock_jobptr : ℕ → List Bool → Bool → ℕ × Bool
unfolding job_atomics_idx spin
atomic_lock_jobptr hash spurious atom = (job_atomics_idx hash, spin spurious atom)

-- `atomic_unlock_jobptr`
unfoldable pub atomic_unlock_jobptr : ℕ → Bool → Checked Bool
atomic_unlock_jobptr idx atom = check (ltb idx n_atoms) (check atom (ok false))

spin-held : (spurious : List Bool) → spin spurious true ≡ true
unfolding spin
spin-held [] = refl
spin-held (true ∷ spurious) = refl
spin-held (false ∷ spurious) = refl

-- Whatever exchanges fail, a call of `atomic_lock_jobptr` while another thread has the lock returns
-- and leaves the lock taken. When both threads then unlock, the assertions of the first hold, and
-- one of the second fails.
pub lock_does_not_exclude :
    (hash : ℕ) (spurious : List Bool)
    → ((atomic_lock_jobptr hash spurious true).1 ≡ true)
      × (atomic_unlock_jobptr (job_atomics_idx hash) (atomic_lock_jobptr hash spurious true).1
          ≡ ok false)
      × ((atomic_unlock_jobptr (job_atomics_idx hash) (atomic_lock_jobptr hash spurious true).1
            >>= atomic_unlock_jobptr (job_atomics_idx hash))
          ≡ assert_failed)
unfolding atomic_lock_jobptr atomic_unlock_jobptr
lock_does_not_exclude hash spurious =
    let index : ltb (hash % n_atoms) n_atoms ≡ true = ground arith in
    rw (spin-held spurious, index) (refl, refl, rw index refl)
