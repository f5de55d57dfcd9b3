-- ===== src/Gateway/Control.antt =====
-- internal/gateway/gateway.go: the controller. The system is a value of its own: what nft was given and
-- how it answered, and the text of /proc/sys/net/ipv4/ip_forward. How the system behaves during one call is
-- an argument (`Host`); `active`, the lock and the log are as in the source, less the log.
pub mod Kept
use outline_gate.Prelude.{
  ℕ, Bool, true, false, not, List, [], ◌∷◌, ◌++◌, Option, some, none, if◌then◌else◌, any,
}
use outline_gate.Prelude.Result.{Result, ok, err}
use outline_gate.Go.Text.{has_part, Text, codes, text_eq, is_empty, trim_space}
use outline_gate.Go.Unicode.{Unicode, lower}
use outline_gate.Routing.{Engine}
use outline_gate.Gateway.Script.{Settings, script_text, patch_script, build_script, no_engine}

-- A run of nft: which script it was, its text, and the error if it failed.
pub data Purpose : Type 0 where
  deletes patches builds : Purpose

pub record Run : Type 0 where
  pub purpose : Purpose
  pub script : Text
  pub error : Option Text

-- What nft answers to a script after the runs so far, for a failure its error and its output; where its
-- binary is; and whether the file for forwarding can be written.
pub record Host : Type 0 where
  pub nft : List Run → Text → Option (Text × Text)
  pub look_path : Option Text
  pub is_file : Text → Bool
  pub forward_writable : Bool

-- The system: the runs of nft, the last first, and the file, if it can be read.
pub record System : Type 0 where
  pub runs : List Run
  pub ip_forward : Option Text

pub record Gateway : Type 0 where
  pub cfg : Settings
  pub engine : Option Engine
  pub active : Bool
  pub nft_bin : Text

-- `New`.
abbrev pub new_gateway : Settings → Option Engine → Gateway
new_gateway cfg engine = record { cfg = cfg; engine = engine; active = false; nft_bin = [] }

abbrev pub candidates : List Text
candidates = codes "/usr/sbin/nft" ∷ codes "/sbin/nft" ∷ codes "/usr/bin/nft" ∷ []

abbrev first_file : Host → List Text → Option Text
first_file h [] = none
first_file h (c ∷ cs) = let rest = first_file h cs in if h.is_file c then some c else rest

abbrev from_path : Host → Option Text → Option Text
from_path h (some p) = some p
from_path h none = first_file h candidates

-- `resolveNFT`: the binary; a found one is kept.
unfoldable pub resolve_nft : Host → Gateway → Option Text
resolve_nft h g = if is_empty g.nft_bin then from_path h h.look_path else some g.nft_bin

abbrev pub keep_bin : Option Text → Gateway → Gateway
keep_bin none g = g
keep_bin (some bin) g = record g { nft_bin = bin }

abbrev pub missing_nft : Text
missing_nft = codes "nft binary not found in PATH or /usr/sbin/nft (install nftables)"

-- The error text of a failed run.
abbrev pub run_error : Option (Text × Text) → Option Text
run_error none = none
run_error (some (e, out)) = some (e ++ (codes ": " ++ trim_space out))

abbrev pub State : Type 0
State = Gateway × System

abbrev pub run_with : Host → Purpose → Text → Option Text → State → State × Option Text
run_with h p script none st = (st, some missing_nft)
run_with h p script (some bin) (g, s) =
    let answer = run_error (h.nft s.runs script) in
    (
      (
        keep_bin (some bin) g,
        record s { runs = record { purpose = p; script = script; error = answer } ∷ s.runs },
      ),
      answer,
    )

-- `runNFTLocked`.
unfoldable pub run_nft : Host → Purpose → Text → State → State × Option Text
run_nft h p script st = run_with h p script (resolve_nft h st.0) st

-- `ensureIPForward`; its error is logged only.
abbrev forwarded : Bool → Option Text → Option Text
forwarded writable none = none
forwarded writable (some t) =
    if text_eq (trim_space t) (codes "1")
    then some t
    else if writable
    then some (codes "1\n")
    else some t

unfoldable pub ensure_ip_forward : Host → System → System
ensure_ip_forward h s = record s { ip_forward = forwarded h.forward_writable s.ip_forward }

abbrev pub set_active : Bool → State → State
set_active b (g, s) = (record g { active = b }, s)

abbrev pub delete_script : Text
delete_script = codes "delete table inet outline_gate"

abbrev pub patch_for : Host → Option Engine → State → State × Option Text
patch_for h none st = (st, some no_engine)
patch_for h (some e) st = run_nft h patches (script_text (patch_script e)) st

-- `patchSetsLocked`.
unfoldable pub patch_sets : Host → State → State × Option Text
unfolding run_nft
patch_sets h st = patch_for h st.0.engine st

-- The rest of `applyLocked`, once a script is built; `st` is the state behind the deletion.
abbrev pub after_build : State × Option Text → State × Option Text
after_build (st, none) = (set_active true st, none)
after_build (st, some e) = (set_active false st, some (codes "nft apply: " ++ e))

abbrev pub rebuild_with : Host → Result Text (List Text) → State → State × Option Text
rebuild_with h (err e) st = (st, some e)
rebuild_with h (ok lines) st =
    after_build (run_nft h builds (script_text lines) (run_nft h deletes delete_script st).0)

unfoldable pub rebuild : (ℕ → Bool) → Host → State → State × Option Text
rebuild print h st = rebuild_with h (build_script print st.0.cfg st.0.engine) st

abbrev pub or_rebuild : (ℕ → Bool) → Host → State × Option Text → State × Option Text
or_rebuild print h (st, none) = (st, none)
or_rebuild print h (st, some e) = rebuild print h st

-- `applyLocked`, which is `Apply`.
unfoldable pub apply : (ℕ → Bool) → Host → State → State × Option Text
apply print h (g, s) =
    let st : State = (g, ensure_ip_forward h s) in
    if g.active then or_rebuild print h (patch_sets h st) else rebuild print h st

-- `isNFTNotFound`.
unfoldable pub is_not_found : Unicode → Text → Bool
is_not_found u e = any (has_part (lower u e)) (
    codes "no such file"
    ∷ codes "does not exist"
    ∷ codes "not found"
    ∷ codes "no such file or directory"
    ∷ [])

abbrev pub after_delete : Unicode → Option Text → Option Text
after_delete u none = none
after_delete u (some e) = if is_not_found u e then none else some (codes "nft flush: " ++ e)

-- `Flush`.
unfoldable pub flush : Unicode → Host → State → State × Option Text
flush u h st =
    let ran = run_nft h deletes delete_script st in (set_active false ran.0, after_delete u ran.1)

-- `UpdateEngine`.
unfoldable pub update_engine : (ℕ → Bool) → Host → Option Engine → State → State × Option Text
update_engine print h engine (g, s) =
    let st : State = (record g { engine = engine }, s) in
    if not g.active then (st, none) else apply print h st
