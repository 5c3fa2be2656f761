-- ===== src/SubServer/Slots.antt =====
-- Storage/remote/sub_server.py, `Server`: the slots of the threads that answer. `starts` says whether
-- the system starts the thread; `Thread.start` raises where it does not.
pub mod Balance
mod Tests
use obhod.Prelude.{
  ℕ, zero, suc, ◌+◌, ◌≡◌, Bool, true, false, ◌||◌, List, [], ◌∷◌, if◌then◌else◌, nat_beq, elem,
  number_key,
}

-- The count of the semaphore, and the connections whose threads run.
pub record Server : Type 0 where
  pub slots : ℕ
  pub serving : List ℕ

pub data Fate : Type 0 where
  busy : Fate
  served : Fate
  failed : Fate

abbrev pub start_thread : Bool → ℕ → Server → Server × Fate
start_thread starts c s =
    if starts then (record s { serving = c ∷ s.serving }, served) else (s, failed)

-- `acquire(blocking=False)`, the answer 503, or the thread.
abbrev pub take_slot : Bool → ℕ → Server → ℕ → Server × Fate
take_slot starts c s zero = (s, busy)
take_slot starts c s (suc n) = start_thread starts c (record s { slots = n })

unfoldable pub process_request : Bool → ℕ → Server → Server × Fate
process_request starts c s = take_slot starts c s s.slots

unfoldable pub without_thread : ℕ → List ℕ → List ℕ
without_thread c [] = []
without_thread c (d ∷ serving) =
    let rest = without_thread c serving in if nat_beq d c then serving else d ∷ rest

-- The thread of a connection is done, by an answer or by an error.
unfoldable pub process_request_thread : ℕ → Server → Server
unfolding without_thread
process_request_thread c s = record { slots = s.slots + 1; serving = without_thread c s.serving }

abbrev pub lost_by : Fate → ℕ
lost_by busy = 0
lost_by served = 0
lost_by failed = 1

-- The states of a server of `max_clients` slots in which `lost` threads have failed to start.
pub data Run (max_clients : ℕ) : ℕ → Server → Type 0 where
  opened : Run max_clients 0 (record { slots = max_clients; serving = [] })
  arrives :
      (starts : Bool) (c lost : ℕ) (s : Server)
      → Run max_clients lost s
      → Run max_clients
          (lost + lost_by (process_request starts c s).1)
          (process_request starts c s).0
  ends :
      (c lost : ℕ) (s : Server)
      → Run max_clients lost s
      → elem c s.serving ≡ true
      → Run max_clients lost (process_request_thread c s)
