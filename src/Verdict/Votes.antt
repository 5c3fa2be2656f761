-- ===== src/Verdict/Votes.antt =====
-- The dictionary of counts holds, for each verdict, how often it was given.
use obhod.Prelude.{
  ℕ, ◌+◌, ◌≤◌, ◌≡◌, true, List, [], ◌∷◌, String, arith, text_key, ◌==◌, if◌then◌else◌, ◌∙◌, ap,
}
use obhod.Dict.{Dict, get, put}
use obhod.Dict.Laws.{get-put}
use obhod.Verdict.{
  Probe, votes_of, count_in, count_or_zero, count_votes, count_probes, counts, meets,
}

abbrev pub times : String → List String → ℕ
times v [] = 0
times v (w ∷ votes) = (if w == v then 1 else 0) + times v votes

-- How often the probes gave the verdict, where no verdict counts as uncertain.
abbrev pub given : String → List Probe → ℕ
given v [] = 0
given v (p ∷ results) = times v (votes_of p) + given v results

count_in-put :
    (d : Dict String ℕ) (v w : String)
    → count_in (put w (count_in d w + 1) d) v ≡ (if w == v then 1 else 0) + count_in d v
count_in-put d v w =
    ap count_or_zero (get-put w v (count_in d w + 1) d) ∙ ground (arith, text_key.same_iff w v)

count_votes-times :
    (d : Dict String ℕ) (v : String) (votes : List String)
    → count_in (count_votes d votes) v ≡ count_in d v + times v votes
unfolding count_votes
count_votes-times d v [] = omega arith
count_votes-times d v (w ∷ votes) =
    omega (arith, count_votes-times (put w (count_in d w + 1) d) v votes, count_in-put d v w)

count_probes-given :
    (d : Dict String ℕ) (v : String) (results : List Probe)
    → count_in (count_probes d results) v ≡ count_in d v + given v results
unfolding count_probes
count_probes-given d v [] = omega arith
count_probes-given d v (p ∷ results) = omega (
  arith,
  count_probes-given (count_votes d (votes_of p)) v results,
  count_votes-times d v (votes_of p),
)

-- Of a list that shares a name with the four, one of the four occurs.
pub meets-times :
    (votes : List String)
    → meets votes ≡ true
    → 1
      ≤ times "tspu_block" votes
        + times "sni_block" votes
        + times "dns_spoofing" votes
        + times "cdn_block" votes
unfolding meets
meets-times [] h = ground arith
meets-times (v ∷ votes) h = ground (
  arith,
  meets-times votes,
  text_key.same_iff "tspu_block" v,
  text_key.same_iff v "tspu_block",
  text_key.same_iff "sni_block" v,
  text_key.same_iff v "sni_block",
  text_key.same_iff "dns_spoofing" v,
  text_key.same_iff v "dns_spoofing",
  text_key.same_iff "cdn_block" v,
  text_key.same_iff v "cdn_block",
)

-- The count of each verdict is how often the probes gave it, where a probe without a verdict counts
-- as uncertain.
pub counts-given :
    (v : String) (results : List Probe) → count_in (counts results) v ≡ given v results
unfolding counts get
counts-given v results = omega (arith, count_probes-given [] v results)
