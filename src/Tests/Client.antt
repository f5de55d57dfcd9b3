-- ===== src/Tests/Client.antt =====
-- internal/outline/client.go: a client that connects, and loses its tunnel after two time-outs.
use outline_gate.Prelude.{◌≡◌, refl, true, false, [], ◌∷◌, some, none, pos, All, arith}
use outline_gate.Go.Text.{Text, codes, trim_space}
use outline_gate.Outline.{
  Network, Client, new_client, connect, apply_expanded, probe, dial_context, note_tunnel_failure,
  is_transport_failure, unready, expanded, probed,
}
use outline_gate.Outline.Maintain.{Intervals, first_loop}
use outline_gate.Outline.Maintain.Pace.{IsPaced, turns, turns-IsPaced}
use outline_gate.Outline.Ready.{IsCoherent, connects, probes, run, step, run-IsCoherent}

abbrev lost : Network
lost = record {
  expand = λ key. some key;
  builds = λ key. true;
  parse_url = λ key. some (record { scheme = codes "ss"; hostname = codes "b" });
  lookup = λ host. some ((192 ∷ 0 ∷ 2 ∷ 1 ∷ []) ∷ []);
  slot = none;
  dial = λ key address. some (record { message = codes "i/o timeout"; timeout = true });
}

abbrev key_text : Text
key_text = codes "ss://a@b:1"

abbrev fresh_client : Client
fresh_client = new_client lost key_text (codes "1.1.1.1:443") (pos 2) []

run-IsCoherent_example :
    IsCoherent (run fresh_client (connects lost ∷ probes lost ∷ probes lost ∷ []))
run-IsCoherent_example =
    run-IsCoherent lost key_text (codes "1.1.1.1:443") (pos 2) []
      (connects lost ∷ probes lost ∷ probes lost ∷ [])

lost_calls :
    (run fresh_client (connects lost ∷ probes lost ∷ probes lost ∷ [])).calls
    ≡ probed false ∷ unready ∷ probed false ∷ expanded key_text ∷ []
unfolding run step connect apply_expanded probe dial_context note_tunnel_failure
    is_transport_failure trim_space
lost_calls = refl

abbrev minute_intervals : Intervals
minute_intervals = record {
  base = 1000000000;
  longest = 60000000000;
  probe_interval = 30000000000;
  refresh_every = 0;
}

turns-IsPaced_example : All (IsPaced 60000000000) (
    turns minute_intervals
      (first_loop minute_intervals fresh_client)
      ((lost, (1, fresh_client)) ∷ (lost, (2000000000, fresh_client)) ∷ []))
turns-IsPaced_example =
    turns-IsPaced minute_intervals 60000000000 fresh_client
      ((lost, (1, fresh_client)) ∷ (lost, (2000000000, fresh_client)) ∷ []) (omega arith)
      (omega arith)
