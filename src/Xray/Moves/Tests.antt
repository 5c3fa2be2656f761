-- ===== src/Xray/Moves/Tests.antt =====
-- `resolve_ports` on a few settings.
use obhod.Prelude.{ℕ, ◌≡◌, refl, List, [], ◌∷◌, codes}
use obhod.Chars.{lstrip, rstrip, strip}
use obhod.Chars.Cut.{last_piece, rest_after}
use obhod.Chars.Bytes.{decimals, decimal}
use obhod.Portguard.{first_near, first_low, free_port}
use obhod.Xray.Moves.{
  Listening, before_last, metric_parts, move_metrics, move_api, move_sub, resolve_ports,
}

abbrev settings : Listening
settings = record {
  inbounds = 443 ∷ 11112 ∷ [];
  metrics = codes "127.0.0.1:11111";
  api_port = 62789;
  sub_port = 2096;
}

abbrev used : List ℕ
used = 2096 ∷ 11111 ∷ []

moves_example :
    (resolve_ports used settings).moves
    ≡ record { label = "metrics"; old = 11111; found = 11113 }
      ∷ record { label = "sub"; old = 2096; found = 2097 }
      ∷ []
unfolding resolve_ports move_metrics move_api move_sub metric_parts before_last last_piece
    rest_after strip lstrip rstrip decimal decimals free_port first_near first_low
moves_example = refl

metrics_example : (resolve_ports used settings).settings.metrics ≡ codes "127.0.0.1:11113"
unfolding resolve_ports move_metrics move_api move_sub metric_parts before_last last_piece
    rest_after strip lstrip rstrip decimal decimals free_port first_near first_low
metrics_example = refl

abbrev neighbours : Listening
neighbours = record settings { inbounds = []; metrics = []; api_port = 2097 }
