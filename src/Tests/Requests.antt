-- ===== src/Tests/Requests.antt =====
-- Requests and a queue that the tests share.
use tp_sist_op.Prelude.{[], ◌∷◌, refl}
use tp_sist_op.Prelude.Int.{pos, ◌+ℤ◌, wrap}
use tp_sist_op.Queue.{Origin, PendingRequest, ColaPendingRequest}
use tp_sist_op.Queue.Fifo.{waiting, IsCounted}

abbrev pub first_request : PendingRequest
first_request = record { job_id = pos 5; amount = pos 3; owner_conn = 1; origen = Origin.remote }

abbrev pub second_request : PendingRequest
second_request = record { job_id = pos 6; amount = pos 2; owner_conn = 2; origen = Origin.local }

abbrev pub two_waiting : ColaPendingRequest
two_waiting = record { nodes = first_request ∷ second_request ∷ []; amount = pos 5 }

abbrev pub none_waiting : ColaPendingRequest
none_waiting = record { nodes = []; amount = pos 0 }

pub two_waiting-IsCounted : IsCounted two_waiting
unfolding wrap waiting ◌+ℤ◌
two_waiting-IsCounted = refl
