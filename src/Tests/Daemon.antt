-- ===== src/Tests/Daemon.antt =====
-- internal/amnezia/client.go: a daemon whose socket appears after 100 ms and whose handshake is seen after a
-- second, and one that is not installed.
use outline_gate.Prelude.{
  ℕ, ◌≡◌, ◌+◌, ◌*◌, pos, negsuc, refl, inl, false, List, [], ◌∷◌, ◌++◌, some, none, leb,
  if◌then◌else◌,
}
use outline_gate.Go.Text.{Text, codes, trim_space, trim_left, split, text_eq}
use outline_gate.Amnezia.Conf.{
  Config, empty_config, put, private_key, peer_public_key, endpoint, address,
}
use outline_gate.Amnezia.Client.{Client, Host, State, Reply, second, down}
use outline_gate.Amnezia.Client.Waits.{Wait, wait_for, arrived}
use outline_gate.Amnezia.Client.Socket.{
  get_request, handshake_ok, uapi_get, gathered, read_entries, parse_int, uint_from,
}
use outline_gate.Amnezia.Client.Up.{up, chain, make_plan, wait_socket, wait_handshake, cidr_text}
use outline_gate.Amnezia.Client.Socket.{uapi_cmd, answered}
use outline_gate.Amnezia.Client.Routes.{
  pin_endpoint_route, field_after, fields, probe_targets, probe_through, try_targets,
}
use outline_gate.Amnezia.Client.{interface_addr, interface_ip, wg_bin}
use outline_gate.Amnezia.Conf.{interface_net, endpoint_ip}
use outline_gate.Amnezia.Uapi.{
  uapi_device, key_to_hex, pad_b64, key_entry, uapi_peer, allowed_entries, trim_marks, write_kv,
}
use outline_gate.Go.Base64.{std_decode, decode_padded, sextet, decode_raw, raw_std_decode}
use outline_gate.Go.IpParse.{
  parse_cidr, first_mark, octet_from, parse_addr, parse_ip, parse_ip4, parse_ip6,
}
use outline_gate.Go.HostPort.{cut, split_host_port}
use outline_gate.Go.Ip.{cidr_mask, ip_mask, to4}
use outline_gate.Go.IpString.{digits_onto, ip_string, itoa, net_string}
use outline_gate.Go.Text.{join}
use outline_gate.Amnezia.Client.Up.Ends.{Ends}
use outline_gate.Amnezia.Client.Up.Local.{IsContained, up-IsContained}
use outline_gate.Amnezia.Client.Log.{Writer, write, take_lines, write-append}

abbrev zero_key : Text
zero_key = codes "AAAAAAAAAAAAAAAAAAAAAAAAAAAAAAAAAAAAAAAAAAA="

abbrev pub conf : Config
conf = put private_key zero_key (
    put peer_public_key zero_key
      (put endpoint (codes "192.0.2.7:51820") (put address (codes "10.8.0.2/32") empty_config)))

abbrev idle : Client
idle = record {
  iface_name = [];
  wg_path = [];
  conf = conf;
  probe = [];
  uapi_dir = [];
  daemon = false;
  ready = false;
  dialer = none;
  pinned = [];
}

abbrev said : List Text → Reply
said ls = record { refused = none; lines = ls; ending = none }

abbrev shown : ℕ → Reply
shown now =
    if leb (second + 100000000) now
    then said
        (codes "last_handshake_time_sec=1700000000" ∷ codes "rx_bytes=92" ∷ codes "errno=0" ∷ [])
    else said (codes "errno=0" ∷ [])

abbrev pub host : Host
host = record {
  exists = λ p. false;
  is_file = λ p. false;
  look_path = λ p. some (codes "/usr/bin/amneziawg-go");
  join_path = λ dir file. dir ++ (b'/' ∷ file);
  takes = λ now a. 0;
  command = λ now argv. (none, codes "192.0.2.7 via 198.51.100.1 dev eth0 src 198.51.100.9");
  start_error = λ now. none;
  exits = λ now. some none;
  socket = λ now. leb 100000000 now;
  reply = λ now text. if text_eq text get_request then shown now else said (codes "errno=0" ∷ []);
  dial_error = λ now addr. none;
}

abbrev at_start : State
at_start = (idle, record { now = 0; done = [] })

up-IsContained_example : IsContained (up host at_start).0
up-IsContained_example = up-IsContained host at_start (tt, inl refl)

comes_up : (up host at_start).1 ≡ none
unfolding up trim_space interface_net parse_cidr uapi_device key_to_hex std_decode decode_padded
    pad_b64 sextet key_entry uapi_peer wait_socket wait_for uapi_cmd answered wait_handshake
    pin_endpoint_route field_after fields probe_targets probe_through try_targets gathered
    handshake_ok parse_int read_entries uapi_get uint_from chain cidr_text make_plan down
    interface_addr interface_ip wg_bin endpoint_ip allowed_entries trim_marks write_kv decode_raw
    raw_std_decode cut split_host_port cidr_mask ip_mask to4 first_mark octet_from parse_addr
    parse_ip parse_ip4 parse_ip6 digits_onto ip_string itoa net_string join split trim_left
comes_up = refl

abbrev silent_writer : Writer
silent_writer = record { buf = []; logged = [] }

write-append_example :
    write (codes "eady\nrest") (write (codes "r") silent_writer)
    ≡ write (codes "r" ++ codes "eady\nrest") silent_writer
write-append_example = write-append (codes "r") (codes "eady\nrest") silent_writer

lines_logged :
    write (codes "eady\nrest") (write (codes "r") silent_writer)
    ≡ record { buf = codes "rest"; logged = codes "ready" ∷ [] }
unfolding write take_lines split trim_space trim_left
lines_logged = refl

-- The loop that waits for the socket polls three times.
abbrev polling : Wait
polling = record {
  test = λ now. leb 100000000 now;
  cost = λ now. 0;
  pause = 50000000;
  deadline = 8 * second;
  context_end = 45 * second;
}

polls : wait_for polling 162 0 ≡ (100000000, arrived)
unfolding wait_for
polls = refl

entries_read :
    (parse_int (codes "42") ≡ pos 42)
    × (parse_int (codes "-1") ≡ negsuc 0)
    × (parse_int (codes "4x") ≡ pos 0)
unfolding parse_int uint_from
entries_read = (refl, refl, refl)
