-- ===== src/Pipe/Tests.antt =====
-- A pipe that is written and read, in bytes.
use model_lib.Base.{arith, true, false, some, none, [], ◌∷◌}
use model_lib.Pipe.{Pipe, fresh, put, pipewrite_from, piperead_from}
use model_lib.Pipe.Ring.{Holds, fresh-Holds, put-Holds}
use model_lib.Pipe.Passes.{WriteCase, pipewrite_from-WriteCase, ReadCase, piperead_from-ReadCase}

-- A page with rubbish, made a pipe.
abbrev new_pipe : Pipe
new_pipe =
    fresh record { data_at = λ i. 5; nread = 9; nwrite = 7; readopen = false; writeopen = false }

abbrev one_byte : Pipe
one_byte = put 65 new_pipe

one_byte-Holds : Holds one_byte (65 ∷ [])
one_byte-Holds = put-Holds new_pipe [] 65 (fresh-Holds _) (omega arith)

pipewrite_from-WriteCase_example :
    WriteCase
      (λ j. false)
      one_byte
      (65 ∷ [])
      0
      (some 66 ∷ none ∷ [])
      (pipewrite_from (λ j. false) (some 66 ∷ none ∷ []) 0 one_byte)
pipewrite_from-WriteCase_example =
    pipewrite_from-WriteCase (λ j. false) (some 66 ∷ none ∷ []) 0 one_byte (65 ∷ []) one_byte-Holds

piperead_from-ReadCase_example :
    ReadCase (λ j. true) 2 0 (65 ∷ []) (piperead_from (λ j. true) 2 0 one_byte)
piperead_from-ReadCase_example =
    piperead_from-ReadCase (λ j. true) 2 0 one_byte (65 ∷ []) one_byte-Holds
