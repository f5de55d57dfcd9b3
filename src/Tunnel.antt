-- ===== src/Tunnel.antt =====
-- internal/tunnel/mux.go: the switch between the Outline and the Amnezia transport. A method takes the
-- receiver and gives the new one where it changes it; the guard `m == nil` has no counterpart. `D` is
-- the type of dialers; the callbacks for readiness and address are read at the call.
pub mod Laws
use outline_gate.Prelude.{
  ℕ, Bool, true, false, not, ◌&&◌, ◌||◌, List, [], ◌∷◌, Option, some, none, if◌then◌else◌,
}
use outline_gate.Prelude.Result.{Result, ok, err}
use outline_gate.Go.Text.{Text, codes, text_eq, is_empty, trim_space}
use outline_gate.Go.Unicode.{Unicode, lower}
use outline_gate.Go.Ip.{IpAddr}

abbrev pub backend_outline : Text
backend_outline = codes "outline"

abbrev pub backend_amnezia : Text
backend_amnezia = codes "amnezia"

-- An optional callback is `none` where the source has `nil`; its argument is the state of the host.
pub record Mux (D W : Type 0) : Type 0 where
  pub outline : Option D
  pub amnezia : Option D
  pub outline_ready : Option (W → Bool)
  pub amnezia_ready : Option (W → Bool)
  pub outline_ip : Option (W → IpAddr)
  pub amnezia_ip : Option (W → IpAddr)
  pub backend : Text

-- The errors of `SetBackend` and `DialContext`.
pub data MuxError : Type 0 where
  unknown_backend : Text → MuxError
  amnezia_missing not_ready : MuxError

-- `Normalize`.
unfoldable pub normalize : Unicode → Text → Text
normalize u name =
    let n = lower u (trim_space name) in
    if is_empty n
      || text_eq n backend_outline
      || text_eq n (codes "ss")
      || text_eq n (codes "ss://")
      || text_eq n (codes "outline-ss")
    then backend_outline
    else if text_eq n backend_amnezia
        || text_eq n (codes "awg")
        || text_eq n (codes "amneziawg")
        || text_eq n (codes "amneziavpn")
        || text_eq n (codes "vpn")
    then backend_amnezia
    else n

abbrev pub is_none {ℓ} : {A : Type ℓ} → Option A → Bool
is_none none = true
is_none (some a) = false

abbrev answer : {W : Type 0} → Option (W → Bool) → W → Bool
answer none w = false
answer (some f) w = f w

abbrev address : {W : Type 0} → Option (W → IpAddr) → W → IpAddr
address none w = []
address (some f) w = f w

module _ {D W : Type 0} where
  -- `NewMux`.
  abbrev pub new_mux :
      (outline amnezia : Option D) (outline_ready amnezia_ready : Option (W → Bool))
      → (outline_ip amnezia_ip : Option (W → IpAddr)) → Mux D W
  new_mux outline amnezia outline_ready amnezia_ready outline_ip amnezia_ip = record {
    outline = outline;
    amnezia = amnezia;
    outline_ready = outline_ready;
    amnezia_ready = amnezia_ready;
    outline_ip = outline_ip;
    amnezia_ip = amnezia_ip;
    backend = backend_outline;
  }

  -- `Backend`.
  abbrev pub backend_of : Mux D W → Text
  backend_of m = if is_empty m.backend then backend_outline else m.backend

  -- `SetBackend`.
  unfoldable pub set_backend : Unicode → Text → Mux D W → Result MuxError (Mux D W)
  set_backend u name m =
      let n = normalize u name in
      if not (text_eq n backend_outline) && not (text_eq n backend_amnezia)
      then err (unknown_backend n)
      else if text_eq n backend_amnezia && is_none m.amnezia
      then err amnezia_missing
      else ok (record m { backend = n })

  -- `active`.
  unfoldable pub active : Mux D W → Option D
  active m = if text_eq (backend_of m) backend_amnezia then m.amnezia else m.outline

  -- `DialContext`: the dialer that is called, if there is one.
  abbrev pub dial_with : Mux D W → Result MuxError D
  dial_with m = elim (active m) [ none ↦ err not_ready | some d ↦ ok d ]

  -- `Ready`.
  unfoldable pub ready : Mux D W → W → Bool
  ready m w =
      if text_eq (backend_of m) backend_amnezia
      then answer m.amnezia_ready w
      else answer m.outline_ready w

  -- `ServerIP`.
  unfoldable pub server_ip : Mux D W → W → IpAddr
  server_ip m w =
      if text_eq (backend_of m) backend_amnezia
      then address m.amnezia_ip w
      else address m.outline_ip w
