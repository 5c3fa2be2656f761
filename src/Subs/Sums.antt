-- ===== src/Subs/Sums.antt =====
-- What `sum_quota` reports for a list of subscriptions.
use obhod.Prelude.{
  ℕ, min, nat_beq, if◌then◌else◌, ◌+◌, ◌≡◌, List, [], ◌∷◌, arith, map, number_key, ◌∙◌,
}
use obhod.Subs.{Quota, sooner, sum_loop, sum_quota}

abbrev pub total_of : (Quota → ℕ) → List Quota → ℕ
total_of field [] = 0
total_of field (q ∷ items) = field q + total_of field items

-- The least of the numbers that are not 0, and 0 if there is none.
abbrev pub earliest : List ℕ → ℕ
earliest [] = 0
earliest (e ∷ rest) =
    let later = earliest rest in
    if nat_beq e 0 then later else if nat_beq later 0 then e else min e later

earliest-sooner : (a b : ℕ) (rest : List ℕ) → earliest (sooner a b ∷ rest) ≡ earliest (a ∷ b ∷ rest)
earliest-sooner a b rest = ground arith

sum_loop_exact :
    (q : Quota) (items : List Quota)
    → ((sum_loop q items).up ≡ q.up + total_of (λ i. i.up) items)
      × ((sum_loop q items).down ≡ q.down + total_of (λ i. i.down) items)
      × ((sum_loop q items).total ≡ q.total + total_of (λ i. i.total) items)
      × ((sum_loop q items).expire ≡ earliest (q.expire ∷ map (λ i. i.expire) items))
unfolding sum_loop
sum_loop_exact q [] = (omega arith, omega arith, omega arith, ground arith)
sum_loop_exact q (item ∷ items) =
    let next : Quota = record {
      up = q.up + item.up;
      down = q.down + item.down;
      total = q.total + item.total;
      expire = sooner q.expire item.expire;
    } in
    let (up, down, total, expire) = sum_loop_exact next items in
    (
      omega (arith, up),
      omega (arith, down),
      omega (arith, total),
      expire ∙ earliest-sooner q.expire item.expire (map (λ i. i.expire) items),
    )

-- The quota of several subscriptions has the sums of what was sent, received and granted, and the
-- earliest of the times at which one of them expires, or 0 if none does.
pub sum_quota_exact :
    (items : List Quota)
    → ((sum_quota items).up ≡ total_of (λ i. i.up) items)
      × ((sum_quota items).down ≡ total_of (λ i. i.down) items)
      × ((sum_quota items).total ≡ total_of (λ i. i.total) items)
      × ((sum_quota items).expire ≡ earliest (map (λ i. i.expire) items))
unfolding sum_quota
sum_quota_exact items =
    let (up, down, total, expire) =
      sum_loop_exact (record { up = 0; down = 0; total = 0; expire = 0 }) items in
    (omega (arith, up), omega (arith, down), omega (arith, total), expire)
