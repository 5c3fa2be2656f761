-- ===== src/Honeypot/Guard/Slots.antt =====
-- The counters of the guard are the numbers of the running workers and of the lost connections, within
-- the limits.
use obhod.Prelude.{
  ℕ, suc, ◌+◌, ◌-◌, ◌≤◌, ◌≡◌, refl, true, false, ◌&&◌, List, [], ◌∷◌, String, if◌then◌else◌, ltb,
  text_key, ◌==◌, length, arith, subst,
}
use obhod.Dict.{get}
use obhod.Dict.Laws.{get-put, get-pop}
use obhod.Honeypot.Guard.{
  Guard, Service, held, take, release, finish, running, start, lose, refuse, leave, Reach, begin,
  next,
}

pub record IsTracking (max_conn per_ip : ℕ) (s : Service) : Type 0 where
  pub max_eq : s.guard.max_conn ≡ max_conn
  pub per_eq : s.guard.per_ip ≡ per_ip
  pub total : s.guard.active ≡ length s.workers + length s.lost
  pub each : (ip : String) → held ip s.guard ≡ running ip s.workers + running ip s.lost
  pub few : length s.workers + length s.lost ≤ max_conn
  pub fair : (ip : String) → running ip s.workers + running ip s.lost ≤ per_ip

running-finish :
    (ip j : String) (workers : List String)
    → running j (finish ip workers) ≡ (if ip == j then running j workers - 1 else running j workers)
unfolding running finish
running-finish ip j [] = ground arith
running-finish ip j (k ∷ workers) = ground (
  arith,
  running-finish ip j workers,
  text_key.same_iff k ip,
  text_key.same_iff k j,
  text_key.same_iff ip j,
)

length-finish :
    (ip : String) (workers : List String) (n : ℕ)
    → running ip workers ≡ suc n
    → length (finish ip workers) + 1 ≡ length workers
unfolding running finish
length-finish ip [] n h = absurd (omega arith)
length-finish ip (j ∷ workers) n h = ground (arith, length-finish ip workers n)

module _ {max_conn per_ip : ℕ} where
  start-IsTracking :
      (s : Service) (ip : String) (g : Guard)
      → take ip s.guard ≡ (g, true)
      → IsTracking max_conn per_ip s
      → IsTracking max_conn per_ip (record s { guard = g; workers = ip ∷ s.workers })
  unfolding take running
  start-IsTracking s ip g e t = record {
    max_eq = ground (arith, t.max_eq);
    per_eq = ground (arith, t.per_eq);
    total = ground (arith, t.total);
    each = λ j. ground (
      arith,
      t.each j,
      t.each ip,
      get-put ip j (held ip s.guard + 1) s.guard.by_ip,
      text_key.same_iff ip j,
    );
    few = ground (arith, t.total, t.max_eq);
    fair = λ j. ground (arith, t.fair j, t.each ip, t.per_eq, text_key.same_iff ip j);
  }

  lose-IsTracking :
      (s : Service) (ip : String) (g : Guard)
      → take ip s.guard ≡ (g, true)
      → IsTracking max_conn per_ip s
      → IsTracking max_conn per_ip (record s { guard = g; lost = ip ∷ s.lost })
  unfolding take running
  lose-IsTracking s ip g e t = record {
    max_eq = ground (arith, t.max_eq);
    per_eq = ground (arith, t.per_eq);
    total = ground (arith, t.total);
    each = λ j. ground (
      arith,
      t.each j,
      t.each ip,
      get-put ip j (held ip s.guard + 1) s.guard.by_ip,
      text_key.same_iff ip j,
    );
    few = ground (arith, t.total, t.max_eq);
    fair = λ j. ground (arith, t.fair j, t.each ip, t.per_eq, text_key.same_iff ip j);
  }

  refuse-IsTracking :
      (s : Service) (ip : String) (g : Guard)
      → take ip s.guard ≡ (g, false)
      → IsTracking max_conn per_ip s
      → IsTracking max_conn per_ip (record s { guard = g })
  unfolding take
  refuse-IsTracking s ip g e t =
      let kept : s.guard ≡ g = ground arith in
      subst (λ (h : Guard). IsTracking max_conn per_ip (record s { guard = h })) kept t

  leave-IsTracking :
      (s : Service) (ip : String) (n : ℕ)
      → running ip s.workers ≡ suc n
      → IsTracking max_conn per_ip s
      → IsTracking max_conn per_ip
          (record s { guard = release ip s.guard; workers = finish ip s.workers })
  unfolding release
  leave-IsTracking s ip n e t = record {
    max_eq = t.max_eq;
    per_eq = t.per_eq;
    total = omega (arith, t.total, length-finish ip s.workers n e);
    each = λ j. ground (
      arith,
      t.each j,
      t.each ip,
      running-finish ip j s.workers,
      get-put ip j (held ip s.guard - 1) s.guard.by_ip,
      get-pop ip j s.guard.by_ip,
      text_key.same_iff ip j,
    );
    few = omega (arith, t.few, length-finish ip s.workers n e);
    fair = λ j. ground (arith, t.fair j, running-finish ip j s.workers);
  }

-- However connections arrive and end, and whichever threads cannot be started: the counter of the guard is
-- the number of the running workers and of the connections whose thread did not start, the count of each
-- address is the number of these that it has, and neither count passes its limit.
pub Reach-IsTracking :
    (max_conn per_ip : ℕ) {s : Service} → Reach max_conn per_ip s → IsTracking max_conn per_ip s
unfolding running get
Reach-IsTracking max_conn per_ip begin = record {
  max_eq = refl;
  per_eq = refl;
  total = refl;
  each = λ ip. refl;
  few = omega arith;
  fair = λ ip. omega arith;
}
Reach-IsTracking max_conn per_ip (next r (start s ip g e)) =
    start-IsTracking s ip g e (Reach-IsTracking max_conn per_ip r)
Reach-IsTracking max_conn per_ip (next r (lose s ip g e)) =
    lose-IsTracking s ip g e (Reach-IsTracking max_conn per_ip r)
Reach-IsTracking max_conn per_ip (next r (refuse s ip g e)) =
    refuse-IsTracking s ip g e (Reach-IsTracking max_conn per_ip r)
Reach-IsTracking max_conn per_ip (next r (leave s ip n e)) =
    leave-IsTracking s ip n e (Reach-IsTracking max_conn per_ip r)

-- In every reachable state a connection is taken exactly if there are fewer workers and lost connections
-- than the limit in all, and fewer than the limit for its address.
pub take_exactly :
    (max_conn per_ip : ℕ) {s : Service} (ip : String)
    → Reach max_conn per_ip s
    → (take ip s.guard).1 ≡ (
        ltb (length s.workers + length s.lost) max_conn
        && ltb (running ip s.workers + running ip s.lost) per_ip)
unfolding take
take_exactly max_conn per_ip ip r =
    let t = Reach-IsTracking max_conn per_ip r in
    ground (arith, t.each ip, t.total, t.max_eq, t.per_eq)
