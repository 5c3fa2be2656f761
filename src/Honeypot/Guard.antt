-- ===== src/Honeypot/Guard.antt =====
-- Storage/remote/honeypot_agent.py, the class `Guard` and its use by `Server.accept` and
-- `Server.serve`: how many connections are open, in all and from one address. Each method runs
-- under the lock, so the threads interleave as steps of `Step`.
pub mod Slots
mod Tests
use obhod.Prelude.{
  ℕ, zero, suc, ◌+◌, ◌-◌, ◌≡◌, Bool, true, false, Option, none, some, List, [], ◌∷◌, String,
  if◌then◌else◌, leb, text_key, ◌==◌,
}
use obhod.Dict.{Dict, get, put, pop}

pub record Guard : Type 0 where
  pub max_conn : ℕ
  pub per_ip : ℕ
  pub active : ℕ
  pub by_ip : Dict String ℕ

abbrev pub or_zero : Option ℕ → ℕ
or_zero none = 0
or_zero (some n) = n

-- `self.by_ip.get(ip, 0)`
abbrev pub held : String → Guard → ℕ
held ip g = or_zero (get ip g.by_ip)

unfoldable pub take : String → Guard → Guard × Bool
take ip g =
    if leb g.max_conn g.active
    then (g, false)
    else if leb g.per_ip (held ip g)
    then (g, false)
    else (record g { active = g.active + 1; by_ip = put ip (held ip g + 1) g.by_ip }, true)

-- `left <= 0` is written on the number before the subtraction.
unfoldable pub release : String → Guard → Guard
release ip g = record g {
  active = g.active - 1;
  by_ip = if leb (held ip g) 1 then pop ip g.by_ip else put ip (held ip g - 1) g.by_ip;
}

-- The guard beside the addresses of the workers that are running, and of the connections that were taken
-- but whose thread could not be started.
pub record Service : Type 0 where
  pub guard : Guard
  pub workers : List String
  pub lost : List String

-- The workers without one of this address.
unfoldable pub finish : String → List String → List String
finish ip [] = []
finish ip (j ∷ workers) = if j == ip then workers else j ∷ finish ip workers

unfoldable pub running : String → List String → ℕ
running ip [] = 0
running ip (j ∷ workers) = let rest = running ip workers in if j == ip then suc rest else rest

-- `accept` starts a worker or closes the connection; `serve` gives the slot back when it ends. Where the
-- thread cannot be started, `worker.start` raises behind `take`, and nothing gives the slot back.
pub data Step : Service → Service → Type 0 where
  start :
      (s : Service) (ip : String) (g : Guard)
      → take ip s.guard ≡ (g, true)
      → Step s (record s { guard = g; workers = ip ∷ s.workers })
  lose :
      (s : Service) (ip : String) (g : Guard)
      → take ip s.guard ≡ (g, true)
      → Step s (record s { guard = g; lost = ip ∷ s.lost })
  refuse :
      (s : Service) (ip : String) (g : Guard)
      → take ip s.guard ≡ (g, false)
      → Step s (record s { guard = g })
  leave :
      (s : Service) (ip : String) (n : ℕ)
      → running ip s.workers ≡ suc n
      → Step s (record s { guard = release ip s.guard; workers = finish ip s.workers })

pub data Reach (max_conn per_ip : ℕ) : Service → Type 0 where
  begin : Reach max_conn per_ip (record {
    guard = record { max_conn = max_conn; per_ip = per_ip; active = 0; by_ip = [] };
    workers = [];
    lost = [];
  })
  next : {s t : Service} → Reach max_conn per_ip s → Step s t → Reach max_conn per_ip t
