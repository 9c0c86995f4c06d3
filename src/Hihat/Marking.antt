-- ===== src/Hihat/Marking.antt =====
-- hihat.c: the loop at the start of `hihat_store_migrate`, which marks every bucket, by its steps.
use hatrack.Prelude.{ℕ, ◌+◌, true, ltb, ◌==◌, if◌then◌else◌}
use hatrack.FiniteMap.{Op}
use hatrack.Hihat.{Record, bucket_at, Store, set_record}
use hatrack.Hihat.Steps.{Pc, marking, flagging, emptying, marked}

-- `new_used++` if the record has an item.
abbrev pub counted : Record → ℕ → ℕ
counted r new_used = if r.epoch == 0 then new_used else new_used + 1

unfoldable pub mark_step : Store → Op → ℕ → ℕ → Pc
mark_step self op i new_used =
    let r = (bucket_at self.buckets i).rec in
    if ltb self.last_slot i
    then marked op new_used
    else (if r.moving then marking op (i + 1) (counted r new_used) else flagging op i new_used)

-- `OR2X64L` with `HIHAT_F_MOVING`, and with `HIHAT_F_MOVED`.
abbrev pub flag_moving : Store → ℕ → Store
flag_moving self i = set_record self i (record (bucket_at self.buckets i).rec { moving = true })

abbrev pub flag_moved : Store → ℕ → Store
flag_moved self i = set_record self i (record (bucket_at self.buckets i).rec { moved = true })

unfoldable pub check_step : Store → Op → ℕ → ℕ → Pc
check_step self op i new_used =
    let r = (bucket_at self.buckets i).rec in
    if r.epoch == 0 then emptying op i new_used else marking op (i + 1) (new_used + 1)
