-- ===== src/Tests/Devices.antt =====
-- internal/gateway/gateway.go, internal/amnezia/conf.go: a gateway whose nft takes every script, and a
-- small document.
use outline_gate.Prelude.{ℕ, ◌≡◌, refl, Bool, true, false, List, [], ◌∷◌, some, none, All, pos}
use outline_gate.Go.Text.{Text, codes, trim_left}
use outline_gate.Go.Unicode.{ascii}
use outline_gate.Go.Ip.{host_net, to4, cidr_mask}
use outline_gate.Go.IpString.{itoa, net_string, ip_string}
use outline_gate.Go.Quote.{quote, quoted_char}
use outline_gate.Routing.{Engine, new}
use outline_gate.Gateway.Script.{Settings, elements_from, script_text, patch_script, full_script}
use outline_gate.Gateway.Control.{
  Host, System, new_gateway, apply, update_engine, is_not_found, missing_nft, run_nft, resolve_nft,
  patch_sets, rebuild,
}
use outline_gate.Gateway.InPlace.{applies, updates, run, step, shows, run-shows}
use outline_gate.Amnezia.Conf.{empty_config, finish, parse_conf}
use outline_gate.Amnezia.Conf.Documents.{
  Line, IsLine, setting, section, setting_ok, section_ok, blank, blank_ok, document, all_say,
  parse_conf-document,
}

abbrev ascii_print : ℕ → Bool
ascii_print c = false

abbrev some_engine : Engine
some_engine =
    new
      (record {
        routing_mode = codes "exclude";
        bypass_cidrs = host_net (192 ∷ 0 ∷ 2 ∷ 9 ∷ []) ∷ host_net (192 ∷ 0 ∷ 2 ∷ 9 ∷ []) ∷ [];
        tunnel_cidrs = [];
        direct_policy = codes "direct";
      })
      []

abbrev settings : Settings
settings = record {
  routing_mode = codes "exclude";
  transproxy_port = pos 12345;
  output_enable = false;
  amnezia_iface = codes "og-awg0";
  lan_interface = [];
}

abbrev willing : Host
willing = record {
  nft = λ runs script. none;
  look_path = some (codes "/usr/sbin/nft");
  is_file = λ p. false;
  forward_writable = true;
}

abbrev fresh_system : System
fresh_system = record { runs = []; ip_forward = some (codes "0\n") }

abbrev scripts : Text × Text
scripts = (
  script_text (full_script ascii_print settings some_engine 12345),
  script_text (patch_script some_engine),
)

one_element : elements_from [] some_engine.bypass ≡ codes "192.0.2.9/32" ∷ []
unfolding elements_from net_string ip_string itoa to4 cidr_mask
one_element = refl

quoted_name : quote ascii_print (codes "a\"b") ≡ codes "\"a\\\"b\""
unfolding quote quoted_char
quoted_name = refl

-- A missing binary counts as a table that is not there.
missing_is_not_found : is_not_found ascii missing_nft ≡ true
unfolding is_not_found
missing_is_not_found = refl

run-shows_example :
    shows scripts.0 scripts.1
      (run ascii_print ascii
        (new_gateway settings none, fresh_system)
        (updates willing (some some_engine) ∷ applies willing ∷ applies willing ∷ [])).1.runs
    ≡ true
unfolding run step apply update_engine rebuild run_nft resolve_nft patch_sets
run-shows_example =
    run-shows ascii_print ascii settings 12344 refl none fresh_system
      (updates willing (some some_engine) ∷ applies willing ∷ applies willing ∷ []) some_engine refl
      refl

abbrev lines : List Line
lines =
    record {
      entry = section (codes "Interface");
      before = [];
      behind = codes "\r";
      left = [];
      right = [];
    }
    ∷ record {
      entry = setting b'P' (codes "rivateKey") (codes "k=");
      before = [];
      behind = [];
      left = codes " ";
      right = codes " ";
    }
    ∷ record { entry = blank; before = []; behind = []; left = []; right = [] }
    ∷ []

lines_fine : All IsLine lines
unfolding trim_left
lines_fine = (
  record {
    fine = section_ok (codes "Interface");
    before_blank = tt;
    behind_blank = (refl, tt);
    left_blank = tt;
    right_blank = tt;
    no_newline = refl;
  },
  (
    record {
      fine =
          setting_ok refl refl refl (record { left = refl; right = refl })
            (record { left = refl; right = refl }) refl;
      before_blank = tt;
      behind_blank = tt;
      left_blank = (refl, tt);
      right_blank = (refl, tt);
      no_newline = refl;
    },
    (
      record {
        fine = blank_ok;
        before_blank = tt;
        behind_blank = tt;
        left_blank = tt;
        right_blank = tt;
        no_newline = refl;
      },
      tt,
    ),
  ),
)

parse_conf-document_example :
    parse_conf ascii (document lines)
    ≡ finish (all_say ascii lines (record { section = []; config = empty_config })).config
parse_conf-document_example = parse_conf-document ascii lines lines_fine
