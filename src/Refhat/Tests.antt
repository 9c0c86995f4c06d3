-- ===== src/Refhat/Tests.antt =====
-- Runs of the table, and the theorems at a table with one item.
use hatrack.Prelude.{
  ℕ, zero, suc, if◌then◌else◌, ◌+◌, ◌≡◌, ◌↔◌, refl, ◌≢◌, arith, true, none, some, List, [], ◌∷◌,
  or_else,
}
use hatrack.FiniteMap.{
  Op, added, is_none, op_add, op_get, op_put, op_remove, op_replace, reply, reply_of, run_spec,
}
use hatrack.Common.{found_item, not_found}
use hatrack.Common.{View, bucket_index, compute_table_threshold, new_size}
use hatrack.Refhat.{
  Refhat, Bucket, unreachable, ready, init_size, table_of, probe, get, put, replace, add, remove,
  migrate, collect, free_from, move_bucket, move_all, probe_from,
}
use hatrack.Refhat.Contents.{contents, probe_in}
use hatrack.Refhat.Placed.{probe_in_total}
use hatrack.Refhat.Valid.{IsValid, IsArray-of, get-contents}
use hatrack.Refhat.Resize.{Migrates, migrate-Migrates}
use hatrack.Refhat.Operations.{Returns, put-Writes, add-Writes, replace-Writes, remove-Writes}
use hatrack.Refhat.Run.{call, run, table_of-IsValid, run_refines, init_size-IsValid}
use hatrack.Refhat.Viewing.{Has, IsListed, collect_iff}

program : Unit {0}
unfolding call run run_spec get put replace add remove migrate probe probe_from free_from
    move_bucket move_all bucket_index compute_table_threshold new_size
program = tt

abbrev fresh : Refhat
fresh = table_of 16

-- 1, 17 and 33 have the same home bucket.
abbrev script : List Op
script =
    op_put 1 101
    ∷ op_put 17 117
    ∷ op_add 33 133
    ∷ op_remove 17
    ∷ op_get 33
    ∷ op_replace 17 5
    ∷ op_add 17 6
    ∷ op_put 1 102
    ∷ op_get 1
    ∷ []

run-script :
    run fresh script
    ≡ some (
        reply not_found
        ∷ reply not_found
        ∷ added true
        ∷ reply (found_item 117)
        ∷ reply (found_item 133)
        ∷ reply not_found
        ∷ added true
        ∷ reply (found_item 101)
        ∷ reply (found_item 102)
        ∷ [])
unfolding program
run-script = refl

abbrev many : ℕ → List Op
many zero = op_get 3 ∷ []
many (suc n) = op_put (suc n) (suc n + 100) ∷ many n

-- The eleventh insertion migrates the table.
run-many : run fresh (many 14) ≡ some (run_spec (λ g. none) (many 14))
unfolding program
run-many = refl

fresh-IsValid : IsValid fresh
fresh-IsValid = table_of-IsValid 4 (omega arith) (omega arith)

init_size-IsValid_example :
    (t : Refhat) × (init_size 5 ≡ ready t) × IsValid t × ((g : ℕ) → contents t.buckets g ≡ none)
init_size-IsValid_example = init_size-IsValid 5 (omega arith) (omega arith)

put-Writes_example :
    Returns (put 2 fresh 17 117) (reply_of (contents fresh.buckets 17)) fresh 17 (some 117)
put-Writes_example = put-Writes fresh-IsValid 17 (omega arith) 117 (omega arith) (omega arith) 0

first_put : Returns (put 2 fresh 17 117) (reply_of (contents fresh.buckets 17)) fresh 17 (some 117)
first_put = put-Writes fresh-IsValid 17 (omega arith) 117 (omega arith) (omega arith) 0

-- The table with one item.
abbrev one : Refhat
one = first_put.0

one-IsValid : IsValid one
one-IsValid = first_put.2.valid

probe_in_total_example : probe_in one.buckets 17 ≢ unreachable
probe_in_total_example = probe_in_total one.buckets 17 (IsArray-of one-IsValid)

get-contents_example : get one 17 ≡ some (reply_of (contents one.buckets 17))
get-contents_example = get-contents 17 one-IsValid (omega arith)

add-Writes_example :
    Returns
      (add 2 one 33 133)
      (is_none (contents one.buckets 33))
      one
      33
      (or_else (contents one.buckets 33) (some 133))
add-Writes_example =
    add-Writes one-IsValid 33 (omega arith) 133 (omega (arith, first_put.2.later))
      (omega (arith, first_put.2.grown)) 0

replace-Writes_example :
    Returns
      (replace one 17 118)
      (reply_of (contents one.buckets 17))
      one
      17
      (if is_none (contents one.buckets 17) then none else some 118)
replace-Writes_example = replace-Writes one-IsValid 17 (omega arith) 118

remove-Writes_example : Returns (remove one 17) (reply_of (contents one.buckets 17)) one 17 none
remove-Writes_example = remove-Writes one-IsValid 17 (omega arith)

migrate-Migrates_example : Migrates one (migrate one)
migrate-Migrates_example = migrate-Migrates one-IsValid (omega (arith, first_put.2.grown))

run_refines_example : run fresh script ≡ some (run_spec (λ g. none) script)
run_refines_example = run_refines 4 script (omega arith) (omega arith) (omega arith) (omega arith)

abbrev unsorted : (View → View → ℕ) → List View → List View
unsorted cmp ws = ws

abbrev two : List Bucket
two = record { hv = 5; item = 105; epoch = 3 } ∷ record { hv = 6; item = 106; epoch = 0 } ∷ []

abbrev entry_of_five : View
entry_of_five = record { item = 105; sort_epoch = 3 }

collect_iff_example : Has entry_of_five (collect two) ↔ IsListed entry_of_five two
collect_iff_example = collect_iff two entry_of_five
