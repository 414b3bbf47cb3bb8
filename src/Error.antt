-- ===== src/Error.antt =====
-- error.rs: all the ways in which a box interaction can fail, and how they print.
use lager_rs.Prelude.{
  ℕ, ◌&&◌, Option, none, some, List, [], ◌∷◌, ◌++◌, Text, Result, String, str, ℤ, decimal,
  print_int, trim, is_empty, if◌then◌else◌,
}

pub data Error : Type 0 where
  connection timeout : Text → Error
  -- `status` and `message`
  box : ℕ → Text → Error
  -- `status`, `exit_code`, `stdout` and `stderr`
  dfu_failed : ℕ → Option ℤ → Text → Text → Error
  -- `error` and `output`
  flash_failed : Text → List Text → Error
  probe_busy safety_refused unsupported_by_box decode : Text → Error
  -- `feature` and `details`
  not_supported_by_box : Text → Text → Error
  -- `box_host`, `auth_url` and `message`
  auth_required : Text → Text → Text → Error
  config stream : Text → Error
  -- `message` and `held_by`
  uart_in_use : Text → Option Text → Error

-- `Result<T>` of the crate
abbrev pub Res : Type 0 → Type 0
Res A = Result Error A

-- `[T]::join`
unfoldable pub join : Text → List Text → Text
join sep [] = []
join sep (t ∷ []) = t
join sep (t ∷ u ∷ ts) = t ++ (sep ++ join sep (u ∷ ts))

abbrev exit_text : Option ℤ → Text
exit_text (some code) = str "exited with code " ++ print_int code
exit_text none = str "failed"

abbrev section : String → Text → Text
section title text = if is_empty text then [] else str title ++ text

unfoldable pub dfu_text : ℕ → Option ℤ → Text → Text → Text
dfu_text status exit_code stdout stderr =
    let start =
      str "box error (HTTP " ++ (decimal status ++ (str "): dfu-util " ++ exit_text exit_code)) in
    let err_text = trim stderr in
    let out_text = trim stdout in
    if is_empty err_text && is_empty out_text
    then start ++ str ": no output"
    else start ++ (section "\nstderr:\n" err_text ++ section "\nstdout:\n" out_text)

unfoldable pub flash_text : Text → List Text → Text
unfolding join
flash_text error output =
    str "flash failed: "
    ++ (error ++ (if is_empty output then [] else str "\noutput:\n" ++ join (str "\n") output))

-- `Display`
unfoldable pub display : Error → Text
unfolding dfu_text flash_text
display (connection msg) =
    str "cannot reach the Lager box: "
    ++ (msg ++ str ". Check network/Tailscale and that the box is online and updated")
display (timeout msg) = str "request to the Lager box timed out: " ++ msg
display (box status message) = str "box error (HTTP " ++ (decimal status ++ (str "): " ++ message))
display (dfu_failed status exit_code stdout stderr) = dfu_text status exit_code stdout stderr
display (flash_failed error output) = flash_text error output
display (probe_busy message) = str "debug probe busy: " ++ message
display (safety_refused message) = str "refused by the net's safety settings: " ++ message
display (unsupported_by_box message) =
    message ++ str ". This box image does not support this endpoint; update the box"
display (decode msg) = str "could not decode box response: " ++ msg
display (not_supported_by_box feature details) =
    str "'" ++ (feature ++ (str "' is not yet available over the box HTTP API: " ++ details))
display (auth_required box_host auth_url message) =
    message
    ++ (str ". Sign in with `lager login "
        ++ (auth_url
            ++ str
                "` (this crate reuses the CLI's session), or set LAGER_GATEWAY_TOKEN / use LagerBoxBuilder::bearer_token"))
display (config msg) = str "configuration error: " ++ msg
display (stream msg) = str "streaming session error: " ++ msg
display (uart_in_use message held_by) = str "UART in use: " ++ message
