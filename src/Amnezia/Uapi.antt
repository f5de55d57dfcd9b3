-- ===== src/Amnezia/Uapi.antt =====
-- internal/amnezia/conf.go: the text that configures the device. A write to a `strings.Builder` is an
-- append.
use outline_gate.Prelude.{
  ℕ, List, [], ◌∷◌, ◌++◌, Option, some, none, ◌==◌, ◌%◌, ◌||◌, if◌then◌else◌, length,
}
use outline_gate.Prelude.Result.{Result, ok, err, ◌>>=◌}
use outline_gate.Go.Text.{Text, codes, is_empty, trim_space, contains, byte_len}
use mathlib.Core.List.{reverse}
use outline_gate.Go.Ip.{Bytes}
use outline_gate.Go.IpString.{hex_bytes}
use outline_gate.Go.Base64.{std_decode, raw_std_decode}
use outline_gate.Amnezia.Conf

-- The errors of `keyToHex`, and which key they are about.
pub data KeyError : Type 0 where
  not_base64 : KeyError
  want_32 : ℕ → KeyError

pub data UapiError : Type 0 where
  bad_private bad_header bad_public bad_preshared : KeyError → UapiError

-- `padB64`.
unfoldable pub pad_b64 : Text → Text
pad_b64 s =
    let r = byte_len s % 4 in
    if r == 2 then s ++ codes "==" else if r == 3 then s ++ codes "=" else s

-- `strings.TrimRight s "="`.
abbrev drop_marks : Text → Text
drop_marks [] = []
drop_marks (c ∷ s) = if c == b'=' then drop_marks s else c ∷ s

unfoldable pub trim_marks : Text → Text
trim_marks s = reverse (drop_marks (reverse s))

abbrev or_else : Option Bytes → Option Bytes → Option Bytes
or_else none o = o
or_else (some b) o = some b

abbrev pub hex_key : Option Bytes → Result KeyError Text
hex_key none = err not_base64
hex_key (some raw) = if length raw == 32 then ok (hex_bytes raw) else err (want_32 (length raw))

-- `keyToHex`.
unfoldable pub key_to_hex : Text → Result KeyError Text
key_to_hex text =
    let s = trim_space text in
    hex_key (or_else (std_decode (pad_b64 s)) (raw_std_decode (trim_marks s)))

-- A line of the text.
abbrev pub entry : Text → Text → Text
entry k v = k ++ (b'=' ∷ (v ++ b'\n' ∷ []))

-- `writeKV`: nothing for a blank value.
unfoldable pub write_kv : Text → Text → Text
write_kv k v = if is_empty (trim_space v) then [] else entry k (trim_space v)

abbrev named {ℓ} : {A : Type ℓ} → (KeyError → UapiError) → Result KeyError A → Result UapiError A
named f (ok a) = ok a
named f (err e) = err (f e)

-- An entry for a key that may be blank.
unfoldable pub key_entry : (KeyError → UapiError) → Text → Text → Result UapiError Text
key_entry f name key =
    let s = trim_space key in
    if is_empty s
    then ok []
    else elim (key_to_hex s) [ err e ↦ err (f e) | ok h ↦ ok (entry name h) ]

-- The values that `UAPIDevice` writes in front of the header key, and behind it.
abbrev pub device_values : Conf.Config → Text
device_values c =
    write_kv (codes "jc") (c.text Conf.jc)
    ++ (write_kv (codes "jmin") (c.text Conf.jmin)
        ++ (write_kv (codes "jmax") (c.text Conf.jmax)
            ++ (write_kv (codes "s1") (c.text Conf.s1)
                ++ (write_kv (codes "s2") (c.text Conf.s2)
                    ++ (write_kv (codes "s3") (c.text Conf.s3)
                        ++ (write_kv (codes "s4") (c.text Conf.s4)
                            ++ (write_kv (codes "h1") (c.text Conf.h1)
                                ++ (write_kv (codes "h2") (c.text Conf.h2)
                                    ++ (write_kv (codes "h3") (c.text Conf.h3)
                                        ++ write_kv (codes "h4") (c.text Conf.h4))))))))))

abbrev pub timing_values : Conf.Config → Text
timing_values c =
    write_kv (codes "rekey_after_time") (c.text Conf.rekey_after_time)
    ++ (write_kv (codes "rekey_timeout") (c.text Conf.rekey_timeout)
        ++ (write_kv (codes "reject_after_time") (c.text Conf.reject_after_time)
            ++ (write_kv (codes "keepalive_timeout") (c.text Conf.keepalive_timeout)
                ++ (write_kv (codes "max_handshake_attempts") (c.text Conf.max_handshake_attempts)
                    ++ write_kv (codes "content_padding_addition")
                        (c.text Conf.content_padding_addition)))))

-- `UAPIDevice`.
unfoldable pub uapi_device : Conf.Config → Result UapiError Text
uapi_device c = do
  priv ← named bad_private (key_to_hex (c.text Conf.private_key))
  header ← key_entry bad_header (codes "header_protection_key") (c.text Conf.header_protection_key)
  ok (
      entry (codes "private_key") priv
      ++ (device_values c ++ (header ++ (timing_values c ++ codes "replace_peers=true\n"))))

-- The loop of `UAPIPeer` over the allowed addresses: blank ones and those of IPv6 are left out.
unfoldable pub allowed_entries : List Text → Text
allowed_entries [] = []
allowed_entries (t ∷ ts) =
    let ip = trim_space t in
    let more = allowed_entries ts in
    if is_empty ip || contains ip b':' then more else entry (codes "allowed_ip") ip ++ more

abbrev or_any : Text → Text
or_any [] = codes "allowed_ip=0.0.0.0/0\n"
or_any (c ∷ s) = c ∷ s

-- `UAPIPeer`.
unfoldable pub uapi_peer : Conf.Config → Result UapiError Text
uapi_peer c = do
  pub_hex ← named bad_public (key_to_hex (c.text Conf.peer_public_key))
  shared ← key_entry bad_preshared (codes "preshared_key") (c.text Conf.preshared_key)
  ok (
      entry (codes "public_key") pub_hex
      ++ (shared
          ++ (entry (codes "endpoint") (c.text Conf.endpoint)
              ++ (write_kv (codes "persistent_keepalive_interval")
                    (c.text Conf.persistent_keepalive)
                  ++ (codes "replace_allowed_ips=true\n"
                      ++ or_any (allowed_entries c.allowed_ips))))))

-- `UAPISet`.
unfoldable pub uapi_set : Conf.Config → Result UapiError Text
uapi_set c = do dev ← uapi_device c; peer ← uapi_peer c; ok (dev ++ peer)
