-- ===== src/Wire/Request/Paths.antt =====
-- The paths of requests that carry a name.
use lager_rs.Prelude.{
  ◌≡◌, true, not, some, Text, str, all, all_mono, rsplit_once, utf8, ◌==◌, arith,
}
use lager_rs.Codec.Percent.{path_segment}
use lager_rs.Codec.Percent.RoundTrip.{
  percent_decode, is_char, is_safe, percent_decode-path_segment, path_segment-safe,
}
use lager_rs.Url.Split.{rsplit_once-append}
use lager_rs.Wire.Request.{release_uart_session}

-- Whatever Unicode code points a net's name has, the last slash of the path is the one in front of
-- the name, and the name comes back from what stands behind it.
pub release_uart_session-path :
    (netname : Text)
    → all is_char netname ≡ true
    → (rsplit_once b'/' (release_uart_session netname).path
        ≡ some (str "/uart/sessions", path_segment netname))
      × (percent_decode (path_segment netname) ≡ some (utf8 netname))
unfolding release_uart_session
release_uart_session-path netname h = (
  rsplit_once-append b'/' (str "/uart/sessions") (path_segment netname) (
      all_mono is_safe (λ c. not (c == b'/')) (path_segment netname) (λ c e. ground arith)
        (path_segment-safe netname h)),
  percent_decode-path_segment netname h,
)
