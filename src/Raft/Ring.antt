-- ===== src/Raft/Ring.antt =====
-- daemon_raft.c: the ring of results, through which the apply callback hands the reply of an
-- operation to the code that serves the client. `D` is the type of a result pointer, NULL included.
pub mod Fifo
pub mod Collect
use unfs3_raft.Base.{ℕ, zero, suc, ◌+◌, ◌%◌, Option, none, some, ◌==◌, if◌then◌else◌}

-- CAPACITY
abbrev pub capacity : ℕ
capacity = 1000

-- result_item
pub record Item (D : Type 0) : Type 0 where
  pub index : ℕ
  pub data_ptr : D

-- The three globals. An index into the array is at most 999 (`Fifo.IsValid`).
pub record Ring (D : Type 0) : Type 0 where
  pub result_buffer : ℕ → Item D
  pub write_pos : ℕ
  pub read_pos : ℕ

abbrev pub update {ℓ} : {A : Type ℓ} → (ℕ → A) → ℕ → A → ℕ → A
update f i v j = if i == j then v else f j

unfoldable pub put_result : {D : Type 0} → ℕ → D → Ring D → Ring D
put_result {D} op_index result r =
    let item : Item D = record { index = op_index; data_ptr = result } in
    let written : Ring D = record r {
      result_buffer = update r.result_buffer r.write_pos item;
      write_pos = (r.write_pos + 1) % capacity;
    } in
    if written.write_pos == r.read_pos
    then record written { read_pos = (r.read_pos + 1) % capacity }
    else written

unfoldable pub get_result : {D : Type 0} → Ring D → Option (Item D) × Ring D
get_result r =
    if r.read_pos == r.write_pos
    then (none, r)
    else (some (r.result_buffer r.read_pos), record r { read_pos = (r.read_pos + 1) % capacity })

-- The loop at the end of `raft_serialize_and_replicate_nfs_op`: results of other entries are
-- dropped. The outer `none` means that the fuel ran out, the inner one that NULL is returned.
unfoldable pub collect : {D : Type 0} → ℕ → ℕ → Ring D → Option (Option D × Ring D)
collect zero entry_idx r = none
collect (suc fuel) entry_idx r =
    let (popped, r') = get_result r in
    elim popped [
      | none ↦ some (none, r')
      | some item ↦
          let rest = collect fuel entry_idx r' in
          if item.index == entry_idx then some (some item.data_ptr, r') else rest
    ]
