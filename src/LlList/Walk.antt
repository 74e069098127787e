-- ===== src/LlList/Walk.antt =====
-- src/ll_list.cc: `unlink_aid_`, and `succ_`, which aids in unlinking what it meets.
use ilias_async.Base.{ℕ, zero, suc, true, false, not, ◌&&◌, ◌==◌, if◌then◌else◌}
use ilias_async.LlList.Memory.{
  Succ, Memory, s_plain, p_plain, same_pred, put_succ, put_pred, Run, ◌>>=◌, returns, runs_on,
}

-- The results of `unlink_aid_`: the predecessor, or 0, and the successor with its flags.
pub record Aided : Type 0 where
  pub memory : Memory
  pub before : ℕ
  pub after : Succ

-- `unlink_aid_`: "Cascade aiding into successive unlinked elements". `again` is the recursive call.
unfoldable pub cascade : (ℕ → ℕ → Memory → Run Aided) → ℕ → ℕ → Succ → Memory → Run (Succ × Memory)
cascade again zero x s h = if not (s.to == 0) && s.s_marked then runs_on else returns (s, h)
cascade again (suc fuel) x s h =
    if not (s.to == 0) && s.s_marked
    then (again x s.to h >>= λ r.
        cascade again fuel x (if r.after.to == 0 then (r.memory x).succ else r.after) r.memory)
    else returns (s, h)

-- `unlink_aid_`: "Fix predecessor of our successor"
unfoldable pub fix_pred : ℕ → ℕ → ℕ → Memory → Memory
fix_pred a x b h =
    if same_pred (h b).pred (p_plain x)
    then put_pred b (p_plain a) h
    else if same_pred (h b).pred (record { to = x; is_marked = true })
    then put_pred b (record { to = a; is_marked = true }) h
    else h

-- `unlink_aid_`: "Make our predecessor skip us", and the end.
unfoldable pub skip_us : ℕ → ℕ → Succ → Memory → Aided
skip_us a x s h =
    let now = (h a).succ in
    if (now.to == x) && now.s_marked
    then record {
      memory =
          put_succ x (s_plain 0)
            (put_succ a (record s { s_marked = false; d_marked = now.d_marked }) h);
      before = a;
      after = record s { s_marked = false; d_marked = now.d_marked };
    }
    else record { memory = put_succ x (s_plain 0) h; before = a; after = now }

unfoldable pub aid_after : ℕ → ℕ → Succ × Memory → Run Aided
unfolding fix_pred skip_us
aid_after a x (s, h) =
    if s.to == 0
    then returns (record { memory = h; before = a; after = s_plain 0 })
    else returns (skip_us a x s (fix_pred a x s.to h))

-- "Publish intent to move x.succ_": `D_MARKED`
unfoldable pub intend : ℕ → Memory → Memory
intend x h = if (h x).succ.to == 0 then h else put_succ x (record (h x).succ { d_marked = true }) h

-- `unlink_aid_`
unfoldable pub unlink_aid_ : ℕ → ℕ → ℕ → Memory → Run Aided
unfolding cascade aid_after intend
unlink_aid_ zero a x h = runs_on
unlink_aid_ (suc fuel) a x h =
    let p = (h x).pred in
    let before = if p.is_marked then p.to else a in
    let marked = if p.is_marked then h else put_pred x (record { to = a; is_marked = true }) h in
    let rest =
      cascade (unlink_aid_ fuel) fuel x ((intend x marked) x).succ (intend x marked)
      >>= aid_after before x in
    if not p.is_marked && (p.to == 0)
    then returns (record { memory = h; before = 0; after = s_plain 0 })
    else rest

-- `succ_`
unfoldable pub succ_loop : ℕ → ℕ → Succ → Memory → Run (Memory × ℕ)
unfolding unlink_aid_
succ_loop zero x s h = if not (s.to == 0) && s.s_marked then runs_on else returns (h, s.to)
succ_loop (suc fuel) x s h =
    if not (s.to == 0) && s.s_marked
    then (unlink_aid_ fuel x s.to h >>= λ r.
        succ_loop fuel x (if r.after.to == 0 then (r.memory x).succ else r.after) r.memory)
    else returns (h, s.to)

unfoldable pub succ_ : ℕ → ℕ → Memory → Run (Memory × ℕ)
unfolding succ_loop
succ_ fuel x h = succ_loop fuel x (h x).succ h
