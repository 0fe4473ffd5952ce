-- ===== src/Examples/Ring.antt =====
-- A ring of results that goes round the end of its array.
use unfs3_raft.Base.{ℕ, ◌+◌, ◌*◌, ◌≡◌, List, [], ◌∷◌, ◌++◌, some, arith}
use unfs3_raft.Raft.Ring.{Item, Ring, capacity, put_result, collect}
use unfs3_raft.Raft.Ring.Fifo.{IsValid, contents, newest, put_result-contents}
use unfs3_raft.Raft.Ring.Collect.{
  first_of, Collects, Absent, put_all, collect-Collects, collect-put_all,
}

abbrev buffer : ℕ → Item ℕ
buffer i = record { index = i + 1; data_ptr = 10 * i }

-- Three results are waiting, in the slots 998, 999 and 0.
abbrev waiting : Ring ℕ
waiting = record { result_buffer = buffer; write_pos = 1; read_pos = 998 }

waiting-IsValid : IsValid waiting
waiting-IsValid = record { write_in = omega arith; read_in = omega arith }

-- No slot is left: the next result takes the oldest one's place.
abbrev full : Ring ℕ
full = record { result_buffer = buffer; write_pos = 4; read_pos = 5 }

full-IsValid : IsValid full
full-IsValid = record { write_in = omega arith; read_in = omega arith }

waiting-Absent : Absent 7 (contents waiting)
waiting-Absent = (omega arith, (omega arith, (omega arith, tt)))

abbrev others : List (Item ℕ)
others = record { index = 5; data_ptr = 50 } ∷ record { index = 6; data_ptr = 60 } ∷ []

others-Absent : Absent 7 others
others-Absent = (omega arith, (omega arith, tt))

put_result-contents_example :
    contents (put_result 7 70 full)
    ≡ newest 999 (contents full ++ (record { index = 7; data_ptr = 70 } ∷ []))
put_result-contents_example = put_result-contents 7 70 full full-IsValid

collect-Collects_example : Collects 7 (first_of 7 (contents waiting)) (collect capacity 7 waiting)
collect-Collects_example = collect-Collects 7 waiting waiting-IsValid

collect-put_all_example :
    Collects 7 (some 70, []) (collect capacity 7 (put_result 7 70 (put_all others waiting)))
collect-put_all_example =
    collect-put_all 7 others 70 waiting waiting-IsValid others-Absent waiting-Absent
