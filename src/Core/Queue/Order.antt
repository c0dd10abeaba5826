-- ===== src/Core/Queue/Order.antt =====
-- The order in which the worker takes what was submitted.
use device_manager.Common.{
  ℕ, zero, suc, List, [], ◌∷◌, ◌++◌, Option, some, none, ◌≡◌, refl, ap, ◌∙◌, arith, length, ◌+◌,
  append-nil, append_assoc,
}
use device_manager.Core.Types.{RequestPriority, normal, urgent}
use device_manager.Core.Device.{RequestBatch, DeviceQueue, empty_queue}
use device_manager.Core.Queue.{push_back, next_batch}

-- The submissions in the order in which they came in.
abbrev pub push_all : List (RequestPriority × RequestBatch) → DeviceQueue → DeviceQueue
push_all [] q = q
push_all ((p, b) ∷ rest) q = push_all rest (push_back p b q)

-- What the worker takes in `n` rounds with no submission in between.
abbrev take_next :
    Option (RequestBatch × DeviceQueue) → (DeviceQueue → List RequestBatch) → List RequestBatch
take_next none more = []
take_next (some (b, q)) more = b ∷ more q

pub drain : ℕ → DeviceQueue → List RequestBatch
drain zero q = []
drain (suc n) q = take_next (next_batch q) (drain n)

abbrev pub urgent_ones : List (RequestPriority × RequestBatch) → List RequestBatch
urgent_ones [] = []
urgent_ones ((urgent, b) ∷ rest) = b ∷ urgent_ones rest
urgent_ones ((normal, b) ∷ rest) = urgent_ones rest

abbrev pub normal_ones : List (RequestPriority × RequestBatch) → List RequestBatch
normal_ones [] = []
normal_ones ((urgent, b) ∷ rest) = normal_ones rest
normal_ones ((normal, b) ∷ rest) = b ∷ normal_ones rest

push_all-urgent :
    (ss : List (RequestPriority × RequestBatch)) (q : DeviceQueue)
    → (push_all ss q).urgent_queue ≡ q.urgent_queue ++ urgent_ones ss
unfolding push_back
push_all-urgent [] q = rw append-nil
push_all-urgent ((urgent, b) ∷ rest) q =
    push_all-urgent rest (push_back urgent b q)
    ∙ append_assoc q.urgent_queue (b ∷ []) (urgent_ones rest)
push_all-urgent ((normal, b) ∷ rest) q = push_all-urgent rest (push_back normal b q)

push_all-normal :
    (ss : List (RequestPriority × RequestBatch)) (q : DeviceQueue)
    → (push_all ss q).normal_queue ≡ q.normal_queue ++ normal_ones ss
unfolding push_back
push_all-normal [] q = rw append-nil
push_all-normal ((normal, b) ∷ rest) q =
    push_all-normal rest (push_back normal b q)
    ∙ append_assoc q.normal_queue (b ∷ []) (normal_ones rest)
push_all-normal ((urgent, b) ∷ rest) q = push_all-normal rest (push_back urgent b q)

pub next_batch-urgent :
    (q : DeviceQueue) (b : RequestBatch) (us : List RequestBatch)
    → q.urgent_queue ≡ b ∷ us
    → next_batch q ≡ some (b, record q { urgent_queue = us })
unfolding next_batch
next_batch-urgent q b us e = rw (e, next_batch)

pub next_batch-normal :
    (q : DeviceQueue) (b : RequestBatch) (ns : List RequestBatch)
    → q.urgent_queue ≡ []
    → q.normal_queue ≡ b ∷ ns
    → next_batch q ≡ some (b, record q { normal_queue = ns })
unfolding next_batch
next_batch-normal q b ns e f = ground arith

drain-queues :
    (n : ℕ) (us ns : List RequestBatch) (q : DeviceQueue)
    → n ≡ length us + length ns
    → q.urgent_queue ≡ us
    → q.normal_queue ≡ ns
    → drain n q ≡ us ++ ns
unfolding drain
drain-queues zero [] [] q k e f = refl
drain-queues zero [] (b ∷ ns) q k e f = absurd (omega arith)
drain-queues zero (b ∷ us) ns q k e f = absurd (omega arith)
drain-queues (suc n) [] [] q k e f = absurd (omega arith)
drain-queues (suc n) [] (b ∷ ns) q k e f =
    rw (next_batch-normal q b ns e f)
      (ap (◌∷◌ b) (drain-queues n [] ns (record q { normal_queue = ns }) (omega arith) e refl))
drain-queues (suc n) (b ∷ us) ns q k e f =
    rw (next_batch-urgent q b us e)
      (ap (◌∷◌ b) (drain-queues n us ns (record q { urgent_queue = us }) (omega arith) refl f))

length-ones :
    (ss : List (RequestPriority × RequestBatch))
    → length ss ≡ length (urgent_ones ss) + length (normal_ones ss)
length-ones [] = omega arith
length-ones ((urgent, b) ∷ rest) = omega (arith, length-ones rest)
length-ones ((normal, b) ∷ rest) = omega (arith, length-ones rest)

-- Whatever was submitted to an empty queue, the worker takes the urgent batches first and then
-- the normal ones, each kind in the order of submission, and leaves none.
pub drain-push_all :
    (ss : List (RequestPriority × RequestBatch))
    → drain (length ss) (push_all ss empty_queue) ≡ urgent_ones ss ++ normal_ones ss
drain-push_all ss =
    drain-queues (length ss) (urgent_ones ss) (normal_ones ss) (push_all ss empty_queue)
      (length-ones ss) (push_all-urgent ss empty_queue) (push_all-normal ss empty_queue)

pub next_batch-nil :
    (q : DeviceQueue) → q.urgent_queue ≡ [] → q.normal_queue ≡ [] → next_batch q ≡ none
unfolding next_batch
next_batch-nil q e f = ground arith
