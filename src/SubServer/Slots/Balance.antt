-- ===== src/SubServer/Slots/Balance.antt =====
-- Every slot is free, with a thread, or lost to one that did not start.
use obhod.Prelude.{
  ℕ, zero, suc, ◌+◌, if◌then◌else◌, ◌∙◌, ◌≡◌, refl, ap, Bool, true, false, List, [], ◌∷◌, nat_beq,
  ltb, elem, number_key, length, arith,
}
use obhod.SubServer.Slots.{
  Server, busy, served, take_slot, process_request, without_thread, process_request_thread, lost_by,
  Run, opened, arrives, ends,
}

length-without_thread :
    (c : ℕ) (serving : List ℕ)
    → elem c serving ≡ true
    → length (without_thread c serving) + 1 ≡ length serving
unfolding without_thread
length-without_thread c [] h = absurd (ground arith)
length-without_thread c (d ∷ serving) h = ground (arith, length-without_thread c serving)

take_slot-balance :
    (starts : Bool) (c : ℕ) (s : Server) (n : ℕ)
    → s.slots ≡ n
    → (take_slot starts c s n).0.slots
        + length (take_slot starts c s n).0.serving
        + lost_by (take_slot starts c s n).1
      ≡ s.slots + length s.serving
take_slot-balance starts c s zero h = omega arith
take_slot-balance true c s (suc n) h = omega (arith, h)
take_slot-balance false c s (suc n) h = omega (arith, h)

-- The slots that are free, those with a thread and those that are lost are all that there are.
pub Run-balance :
    {max_clients lost : ℕ} {s : Server}
    → Run max_clients lost s
    → s.slots + length s.serving + lost ≡ max_clients
unfolding process_request process_request_thread
Run-balance opened = omega arith
Run-balance (arrives starts c lost s r) =
    omega (arith, take_slot-balance starts c s s.slots refl, Run-balance r)
Run-balance (ends c lost s r there) =
    omega (arith, length-without_thread c s.serving there, Run-balance r)

-- The threads of the connections end, one after the other.
unfoldable pub all_done : List ℕ → Server → Server
all_done [] s = s
all_done (c ∷ serving) s = all_done serving (process_request_thread c s)

all_done-Run :
    {max_clients lost : ℕ} (serving : List ℕ) (s : Server)
    → s.serving ≡ serving
    → Run max_clients lost s
    → Run max_clients lost (all_done serving s) × ((all_done serving s).serving ≡ [])
unfolding all_done process_request_thread without_thread
all_done-Run [] s h r = (r, h)
all_done-Run {lost} (c ∷ serving) s h r =
    let here : nat_beq c c ≡ true = ground arith in
    let there : elem c s.serving ≡ true = rw (h, here) refl in
    let left : without_thread c s.serving ≡ serving = rw (h, here) refl in
    all_done-Run serving (process_request_thread c s) left (ends c lost s r there)

alike :
    (slots lost max_clients : ℕ)
    → slots + lost ≡ max_clients
    → (if nat_beq slots 0 then busy else served) ≡ (if ltb lost max_clients then served else busy)
alike slots lost max_clients h = ground arith

free_is_served :
    (c : ℕ) (s : Server) (n : ℕ) → (take_slot true c s n).1 ≡ (if nat_beq n 0 then busy else served)
free_is_served c s zero = refl
free_is_served c s (suc n) = let more : nat_beq (suc n) 0 ≡ false = ground arith in rw more refl

-- From any state the threads that run may end, and once they have, the next connection whose thread
-- starts is served, unless as many threads have failed to start as there are slots: each of them keeps
-- its slot, and then the connection is turned away.
pub all_done-served :
    {max_clients lost : ℕ} {s : Server} (c : ℕ)
    → Run max_clients lost s
    → Run max_clients lost (all_done s.serving s)
      × ((process_request true c (all_done s.serving s)).1
          ≡ (if ltb lost max_clients then served else busy))
unfolding process_request
all_done-served {max_clients} {lost} {s} c r =
    let (run, empty) = all_done-Run s.serving s refl r in
    let done : Server = all_done s.serving s in
    let no_threads : length done.serving ≡ 0 = ap length empty in
    let all : done.slots + lost ≡ max_clients = omega (arith, Run-balance run, no_threads) in
    (run, free_is_served c done done.slots ∙ alike done.slots lost max_clients all)
