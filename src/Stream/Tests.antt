-- ===== src/Stream/Tests.antt =====
-- Examples of reads.
use reduct_cpp.Common.{◌≡◌, refl, false, some, none, [], ◌∷◌, codes, arith}
use reduct_cpp.Batch.{add_record, fetch}
use reduct_cpp.Batch.Windows.{payload, data_at}
use reduct_cpp.Batch.Examples.{two_records, two_records-IsValid, two_order}
use reduct_cpp.BatchV1.{sort_records}
use reduct_cpp.BatchV1.Order.{sort_records_sorts}
use reduct_cpp.Stream.Turns.{read_in_turn}
use reduct_cpp.Stream.Transfer.{record_sizes, read_in_turn-payload}
use reduct_cpp.Stream.{Queue, Arrivals, batch_v1, batch_v2, returned, waiting, undefined, read_all}
use reduct_cpp.Stream.Conserve.{Kept, read_all-Kept, flat}
use reduct_cpp.Stream.Finish.{Finished, read_all_finishes}
use reduct_cpp.Stream.Empty.{read_all_empty_waits, read_all_short, arrive}

-- Two chunks, the second one with bytes of the next record.
abbrev two_chunks : Queue
two_chunks = some (codes "ab") ∷ some (codes "cde") ∷ []

abbrev three_rounds : Arrivals
three_rounds = [] ∷ [] ∷ [] ∷ []

read_all-Kept_example :
    Kept [] two_chunks three_rounds (read_all batch_v2 3 false three_rounds two_chunks)
read_all-Kept_example = read_all-Kept batch_v2 3 three_rounds two_chunks

read_all_finishes_example :
    Finished 3 [] two_chunks three_rounds (read_all batch_v1 3 false three_rounds two_chunks)
unfolding flat
read_all_finishes_example =
    read_all_finishes batch_v1 3 three_rounds two_chunks tt (omega arith) (tt, (tt, tt))
      (tt, (tt, (tt, tt))) (omega arith) (omega arith)

read_all_empty_waits_example :
    read_all batch_v1 0 false three_rounds (some (codes "ab") ∷ [])
    ≡ waiting 0 [] (arrive (some (codes "ab") ∷ []) three_rounds)
read_all_empty_waits_example = read_all_empty_waits batch_v1 three_rounds (b'a') (codes "b") [] tt

read_all_short_example :
    (read_all batch_v2 3 false three_rounds (some (codes "ab") ∷ none ∷ [])
      ≡ returned (codes "ab") [])
    × (read_all batch_v1 3 false three_rounds (some (codes "ab") ∷ none ∷ []) ≡ undefined)
unfolding flat
read_all_short_example =
    read_all_short 3 three_rounds (some (codes "ab") ∷ []) (tt, tt) (omega arith) (omega arith)
      (refl, (refl, (refl, tt)))

abbrev five_rounds : Arrivals
five_rounds = [] ∷ [] ∷ [] ∷ [] ∷ [] ∷ []

-- The two records' data in the order of sending, cut anew.
abbrev other_chunks : Queue
other_chunks = some (codes "xya") ∷ some (codes "bc") ∷ []

read_in_turn-payload_example :
    read_in_turn batch_v1 (record_sizes two_records two_order) five_rounds other_chunks
    ≡ some (codes "xy" ∷ codes "abc" ∷ [])
unfolding flat payload data_at sort_records add_record fetch
read_in_turn-payload_example =
    read_in_turn-payload two_records two_records-IsValid batch_v1 five_rounds other_chunks tt
      two_order (omega arith, (omega arith, tt)) (tt, (tt, tt))
      (refl, (refl, (refl, (refl, (refl, tt))))) refl (omega arith)
      (sort_records_sorts two_records [] false).0
