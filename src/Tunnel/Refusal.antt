-- ===== src/Tunnel/Refusal.antt =====
-- `Refusal`, `classify`, `refusal_error` and `io_error` of tunnel.rs.
use lager_rs.Prelude.{
  ◌≡◌, arith, Bool-cases, Option-cases, inl, inr, ℕ, Bool, true, Option, none, some, [], ◌++◌, Text,
  str, decimal, is_empty, ◌==◌, if◌then◌else◌,
}
use lager_rs.Error.{Error, auth_required, box, timeout, connection}
use lager_rs.Auth.Denial.{is_denial, denial_error}
use lager_rs.Tunnel.Head.{Head, or_zero}

pub data Refusal : Type 0 where
  -- `status` and `auth_url`
  denied : ℕ → Text → Refusal
  -- `body`
  not_debug_port nothing_listening : Text → Refusal
  unsupported : Option ℕ → Refusal

abbrev pub by_status : ℕ → Text → Refusal
by_status status body =
    if status == 403
    then not_debug_port body
    else if status == 502
    then nothing_listening body
    else unsupported (some status)

abbrev pub denied_or : Option Text → ℕ → Text → Refusal
denied_or none status body = by_status status body
denied_or (some auth_url) status body = denied status auth_url

unfoldable pub classify : Head → Text → Refusal
unfolding is_denial
classify head body =
    if is_denial head.status
    then denied_or head.discovery head.status body
    else by_status head.status body

abbrev pub detail : Text → Text
detail body = if is_empty body then [] else str " (" ++ (body ++ str ")")

unfoldable pub refusal_error : Refusal → Text → ℕ → Error
unfolding denial_error
refusal_error (not_debug_port body) box_host port = box 403 (
    str "the gateway of box "
    ++ (box_host
        ++ (str " does not tunnel port "
            ++ (decimal port
                ++ (detail body
                    ++ str
                        ": gateways tunnel only the debug ports (GDB 2331-2342, OpenOCD 4444-4447 and 6666-6669, RTT 9090-9097)")))))
refusal_error (nothing_listening body) box_host port = box 502 (
    str "nothing is listening on port "
    ++ (decimal port
        ++ (str " on box "
            ++ (box_host
                ++ (detail body ++ str ": start the debug server first (DebugNet::connect)")))))
refusal_error (unsupported status) box_host port = box (or_zero status) (
    str "port "
    ++ (decimal port
        ++ (str " on box "
            ++ (box_host
                ++ str
                    " is reachable only through its gateway, and that gateway does not support debug tunnels yet; ask the box's administrator to update it"))))
refusal_error (denied status auth_url) box_host port = denial_error status box_host auth_url true

-- The kind of a socket error, and how it prints.
pub data ErrorKind : Type 0 where
  timed_out would_block interrupted other : ErrorKind

pub record SocketError : Type 0 where
  pub kind : ErrorKind
  pub shown : Text

unfoldable pub io_error : Text → SocketError → Error
io_error context e = elim e.kind [
  | timed_out ↦ timeout (context ++ (str ": " ++ e.shown))
  | would_block ↦ timeout (context ++ (str ": " ++ e.shown))
  | interrupted ↦ connection (context ++ (str ": " ++ e.shown))
  | other ↦ connection (context ++ (str ": " ++ e.shown))
]

-- The HTTP status that an error stands for.
abbrev pub error_status : Error → Option ℕ
error_status (box status message) = some status
error_status (auth_required box_host auth_url message) = some 401
error_status _ = none

pub denial_error-status :
    (status : ℕ) (box_host auth_url : Text) (sent : Bool)
    → error_status (denial_error status box_host auth_url sent) ≡ some status
unfolding denial_error
denial_error-status status box_host auth_url sent = ground arith

by_status-status :
    (status : ℕ) (body box_host : Text) (port : ℕ)
    → error_status (refusal_error (by_status status body) box_host port) ≡ some status
unfolding refusal_error
by_status-status status body box_host port = ground arith

-- The error that a refused answer becomes stands for the status of the answer.
pub refusal_error-classify :
    (head : Head) (body box_host : Text) (port : ℕ)
    → error_status (refusal_error (classify head body) box_host port) ≡ some head.status
unfolding classify
refusal_error-classify head body box_host port = elim (Bool-cases (is_denial head.status)) [
  | inl denial ↦ elim (Option-cases head.discovery) [
    | inl unnamed ↦ rw (denial, unnamed) (by_status-status head.status body box_host port)
    | inr (url, named) ↦
        rw denial
          (rw named (unfold refusal_error in denial_error-status head.status box_host url true))
  ]
  | inr passed ↦ rw passed (by_status-status head.status body box_host port)
]
