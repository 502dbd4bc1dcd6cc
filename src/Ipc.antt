-- ===== src/Ipc.antt =====
-- crates/plugkill-core/src/ipc.rs and authz.rs: the requests, the replies, and the answers of the
-- authority.
use plugkill.Prelude.{
  ℕ, ◌/◌, ◌%◌, Bool, true, false, Option, none, some, List, ◌++◌, ltb, if◌then◌else◌, Text, codes,
  to_dec,
}

pub data Request : Type 0 where
  status devices violations : Request
  disarm : ℕ → Request
  arm_now learn_mode enforce_mode reload : Request
  pair : ℕ → Option ℕ → Request
  allow_last : Option ℕ → Request
  revoke : Text → Request
  revoke_all : Request
  kill : Text → Request

-- `serde_json::Value`, of the kinds that the fields of these replies have
pub data Value : Type 0 where
  number : ℕ → Value
  string : Text → Value

-- `payload` is the source's `data`, an object by its fields.
pub record Response : Type 0 where
  pub ok : Bool
  pub payload : Option (List (Text × Value))
  pub error : Option Text

unfoldable pub ok_response : List (Text × Value) → Response
ok_response fields = record { ok = true; payload = some fields; error = none }

unfoldable pub err_response : Text → Response
err_response reason = record { ok = false; payload = none; error = some reason }

abbrev pub message : Text → Text × Value
message text = (codes "message", string text)

unfoldable pub format_duration : ℕ → Text
unfolding to_dec
format_duration secs =
    let h = secs / 3600 in
    let m = secs % 3600 / 60 in
    let s = secs % 60 in
    if ltb 0 h
    then to_dec h ++ (codes "h " ++ (to_dec m ++ (codes "m " ++ (to_dec s ++ codes "s"))))
    else if ltb 0 m
    then to_dec m ++ (codes "m " ++ (to_dec s ++ codes "s"))
    else to_dec s ++ codes "s"

pub record PeerCreds : Type 0 where
  pub uid : ℕ
  pub pid : Option ℕ

pub data Authorization : Type 0 where
  allowed : Authorization
  refused : Text → Authorization

-- The action names of authz.rs.
abbrev pub action_disarm : Text
action_disarm = codes "net.acidnetworks.plugkill.disarm"

abbrev pub action_learn : Text
action_learn = codes "net.acidnetworks.plugkill.learn"

abbrev pub action_reload : Text
action_reload = codes "net.acidnetworks.plugkill.reload"

abbrev pub action_allow : Text
action_allow = codes "net.acidnetworks.plugkill.allow"
