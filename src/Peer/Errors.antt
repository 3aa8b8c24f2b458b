-- ===== src/Peer/Errors.antt =====
-- internal/peer/errors.go: errors on either side of the wire.
-- An error is the sentinel that `errors.Is` finds in its chain, none for another error, and its text.
use p2p_hls.Prelude.{
  ◌≡◌, ◌++◌, GoString, bytes, not, if◌then◌else◌, [], ◌==◌, string_eq, Option, none, some, arith,
}

pub data Sentinel : Type 0 where
  denied not_found unavailable busy : Sentinel

pub record PeerError : Type 0 where
  pub is : Option Sentinel
  pub text : GoString

abbrev pub sentinel_text : Sentinel → GoString
sentinel_text denied = bytes "access denied"
sentinel_text not_found = bytes "not found"
sentinel_text unavailable = bytes "unavailable"
sentinel_text busy = bytes "busy"

-- The sentinel itself as an error.
abbrev pub sentinel : Sentinel → PeerError
sentinel s = record { is = some s; text = sentinel_text s }

-- `Error.Status`
pub data Status : Type 0 where
  status_unspecified status_denied status_not_found status_unavailable status_internal status_busy :
      Status

unfoldable pub status_of : PeerError → Status
status_of e = elim e.is [
  | none ↦ status_internal
  | some s ↦ elim s [
    | denied ↦ status_denied
    | not_found ↦ status_not_found
    | unavailable ↦ status_unavailable
    | busy ↦ status_busy
  ]
]

-- The error that a status stands for, before the detail is put to it.
unfoldable pub base_error : Status → GoString → PeerError
base_error status_denied detail = sentinel denied
base_error status_not_found detail = sentinel not_found
base_error status_unavailable detail = sentinel unavailable
base_error status_busy detail = sentinel busy
base_error status_unspecified detail = record { is = none; text = bytes "remote error: " ++ detail }
base_error status_internal detail = record { is = none; text = bytes "remote error: " ++ detail }

unfoldable pub status_err : Status → GoString → PeerError
status_err status detail =
    let base = base_error status detail in
    if not (detail == []) then record base { text = base.text ++ (bytes ": " ++ detail) } else base

-- What kind of error it is survives the way to the other node and back into an error.
pub is-status_err : (e : PeerError) → (status_err (status_of e) e.text).is ≡ e.is
unfolding status_err status_of base_error
is-status_err e = ground arith
