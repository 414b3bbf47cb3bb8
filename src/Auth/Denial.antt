-- ===== src/Auth/Denial.antt =====
-- `denial_error` and `is_denial` of auth.rs.
use lager_rs.Prelude.{ℕ, Bool, ◌||◌, ◌++◌, Text, str, ◌==◌, if◌then◌else◌}
use lager_rs.Error.{Error, box, auth_required}

unfoldable pub is_denial : ℕ → Bool
is_denial status = status == 401 || status == 403 || status == 503

unfoldable pub denial_error : ℕ → Text → Text → Bool → Error
denial_error status box_host auth_url sent_token =
    if status == 401
    then auth_required box_host auth_url (
        if sent_token
        then str "your session was rejected by box " ++ box_host
        else str "box " ++ (box_host ++ str " requires sign-in"))
    else if status == 403
    then box status (
        str "you are not authorized to use box "
        ++ (box_host ++ str " (your account has no access grant for it; ask your admin)"))
    else box status (
        str "box "
        ++ (box_host
            ++ str
                " could not verify authorization: its auth server is unreachable. Try again shortly"))
