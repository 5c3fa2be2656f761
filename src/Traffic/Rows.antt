-- ===== src/Traffic/Rows.antt =====
-- The rows of the clients: one for each, in their order, whatever was sampled before.
use obhod.Prelude.{
  ℕ, ◌≡◌, refl, ap, ◌∙◌, max, List, [], ◌∷◌, String, text_key, map, Option-cases, inl, inr,
}
use obhod.Dict.{Dict, get}
use obhod.Traffic.{
  Peer, Usage, Client, Traffic, sample_peer, sample, day_base, from_peer, stored_of, row_of,
  client_row, client_rows,
}

-- What a row says of the counters, next to what the client, the history and the interface say.
pub record Counts : Type 0 where
  pub name : String
  pub rx : ℕ
  pub tx : ℕ
  pub day : ℕ × ℕ × ℕ

abbrev pub counts_of : Usage → Counts
counts_of u = record { name = u.name; rx = u.rx; tx = u.tx; day = (u.day_at, u.rx0, u.tx0) }

abbrev pub expected : (ℕ → ℕ) → ℕ → Dict String Usage → Dict String Peer → Client → Counts
expected day_of now saved peers client =
    let stored = stored_of (get client.name saved) in
    let rx = max (from_peer 0 (λ p. p.rx) (get client.pub_key peers)) stored.rx in
    let tx = max (from_peer 0 (λ p. p.tx) (get client.pub_key peers)) stored.tx in
    record { name = client.name; rx = rx; tx = tx; day = day_base day_of now stored rx tx }

module _ (day_of : ℕ → ℕ) (second now : ℕ) (saved : Dict String Usage) where
  client_row_peers :
      (client : Client) (t : Traffic)
      → (client_row day_of second now saved client t).0.peers ≡ t.peers
  unfolding client_row sample sample_peer
  client_row_peers client t = elim (Option-cases (get client.pub_key t.peers)) [
    | inl absent ↦ rw absent refl
    | inr (peer, there) ↦ rw there refl
  ]

  client_row_counts :
      (client : Client) (t : Traffic)
      → counts_of (client_row day_of second now saved client t).1
        ≡ expected day_of now saved t.peers client
  unfolding client_row row_of
  client_row_counts client t = refl

  -- The rows are those of the clients in their order, each with the counts that its peer and its
  -- history give, whatever the samples say; and the peers stay as they are.
  pub client_rows_exact :
      (clients : List Client) (t : Traffic)
      → (map counts_of (client_rows day_of second now saved clients t).1
          ≡ map (expected day_of now saved t.peers) clients)
        × ((client_rows day_of second now saved clients t).0.peers ≡ t.peers)
  unfolding client_rows
  client_rows_exact [] t = (refl, refl)
  client_rows_exact (client ∷ clients) t =
      let next : Traffic = (client_row day_of second now saved client t).0 in
      let kept : next.peers ≡ t.peers = client_row_peers client t in
      let (rows, peers) = client_rows_exact clients next in
      let later : map counts_of (client_rows day_of second now saved clients next).1
          ≡ map (expected day_of now saved t.peers) clients =
        rows ∙ ap (λ (d : Dict String Peer). map (expected day_of now saved d) clients) kept in
      (rw (client_row_counts client t, later) refl, peers ∙ kept)
