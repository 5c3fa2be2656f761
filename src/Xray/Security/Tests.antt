-- ===== src/Xray/Security/Tests.antt =====
-- The security of an inbound on a few inbounds.
use obhod.Prelude.{ℕ, ◌≡◌, refl, List, [], ◌∷◌, inl, inr, text_key, All}
use obhod.Xray.Security.{
  Secured, no_certificate, unknown_kind, security_kind, group_loop, switch_security, Action,
  switches, sets_keys, sets_mldsa65, clears_mldsa65, acts,
}
use obhod.Xray.Security.Kinds.{switch_security-security_kind}
use obhod.Xray.Security.Ready.{IsReady, IsGiven, acts-AllReady}

abbrev reality : Secured
reality = record {
  id = 1;
  security = "reality";
  pq_mode = "";
  mldsa65_seed = "";
  mldsa65_verify = "";
  reality_private = "p";
  reality_public = "q";
  cert_file = "";
  key_file = "";
}

abbrev paired : Secured
paired = record reality { mldsa65_seed = "s"; mldsa65_verify = "v" }

abbrev post_quantum : Secured
post_quantum = record paired { pq_mode = "x25519mlkem768" }

switch_example : switch_security "reality-mldsa-pq" paired ≡ inr post_quantum
unfolding switch_security group_loop text_key
switch_example = refl

no_certificate_example : switch_security "tls-pq" reality ≡ inl no_certificate
unfolding switch_security group_loop text_key
no_certificate_example = refl

unknown_kind_example : switch_security "none" reality ≡ inl unknown_kind
unfolding switch_security group_loop text_key
unknown_kind_example = refl

-- The pair is dropped by a kind that does not want it.
dropped_pair : switch_security "reality" paired ≡ inr reality
unfolding switch_security group_loop text_key
dropped_pair = refl

switch_security-security_kind_example :
    security_kind post_quantum ≡ "reality-mldsa65-x25519mlkem768"
unfolding text_key
switch_security-security_kind_example =
    switch_security-security_kind "reality-mldsa-pq" paired post_quantum switch_example (inl refl)

abbrev calls : List (ℕ × Action)
calls =
    (1, sets_mldsa65 "s" "v")
    ∷ (1, switches "reality-mldsa-pq")
    ∷ (2, clears_mldsa65)
    ∷ (1, sets_keys "r" "t")
    ∷ []

reality_ready : All IsReady (reality ∷ [])
unfolding text_key
reality_ready = (refl, tt)

calls-IsGiven : All (λ c. IsGiven c.1) calls
unfolding text_key
calls-IsGiven = (tt, (tt, (tt, (refl, tt))))

acts-AllReady_example : All IsReady (acts calls (reality ∷ []))
acts-AllReady_example = acts-AllReady calls (reality ∷ []) calls-IsGiven reality_ready
