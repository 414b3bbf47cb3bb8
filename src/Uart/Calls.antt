-- ===== src/Uart/Calls.antt =====
-- A session under a sequence of calls, against the reader of a stream that a caller sees.
use lager_rs.Prelude.{
  ℕ, ◌≡◌, refl, ap, subst, ◌∙◌, Option, some, List, [], ◌∷◌, ◌++◌, Bytes, Text, ◌>>=?◌,
}
use lager_rs.Error.{Res}
use lager_rs.Uart.Session.{Uart, read, try_read, wait_for}
use lager_rs.Uart.Stream.{stream, given, read-Keeps, try_read-Keeps}
use lager_rs.Uart.Waiting.{Found, Ends, wait_for-Ends}

-- A call, with its argument. How the pattern and the wait print comes with the wait.
pub data Call : Type 0 where
  reading : ℕ → Call
  polling : Call
  waiting : Text × Text → Bytes → ℕ → Call

unfoldable pub perform : Call → Uart → Option (Res Bytes × Uart)
unfolding read try_read wait_for
perform (reading wait) u = some (read wait u)
perform polling u = some (try_read u)
perform (waiting names needle wait) u = wait_for names needle wait u

-- The calls, one behind the other, with their replies.
unfoldable pub session : List Call → Uart → Option (List (Res Bytes) × Uart)
unfolding perform
session [] u = some ([], u)
session (c ∷ calls) u = perform c u >>=? λ p. session calls p.1 >>=? λ q. some (p.0 ∷ q.0, q.1)

-- What a reply has to be, beside bytes of the stream.
abbrev pub Answers : Call → Res Bytes → Type 0
Answers (reading wait) r = Unit
Answers polling r = Unit
Answers (waiting names needle wait) r = Found needle r

-- The reader: a call takes bytes from the front of the stream, and an error takes none.
pub data Serves : Bytes → List Call → List (Res Bytes) → Bytes → Type 0 where
  served : {s : Bytes} → Serves s [] [] s
  serves :
      {c : Call} {r : Res Bytes} {calls : List Call} {replies : List (Res Bytes)} {s s' : Bytes}
      → Answers c r
      → Serves s calls replies s'
      → Serves (given r ++ s) (c ∷ calls) (r ∷ replies) s'

Performs : Call → Uart → Type 0
Performs c u =
    (p : Res Bytes × Uart) × (perform c u ≡ some p)
    × (given p.0 ++ stream p.1 ≡ stream u)
    × Answers c p.0

performs : (c : Call) (u : Uart) → Performs c u
unfolding perform Performs Ends
performs (reading wait) u = (read wait u, refl, read-Keeps wait u, tt)
performs polling u = (try_read u, refl, try_read-Keeps u, tt)
performs (waiting names needle wait) u = wait_for-Ends names needle wait u

-- Any sequence of calls comes to its end, and its replies are those of a reader of the stream
-- of the bytes that are buffered and that still arrive: each gives the next bytes or an
-- error, none is lost, repeated or reordered, and a wait that succeeds ends with its pattern.
pub session-Serves :
    (calls : List Call) (u : Uart)
    → (replies : List (Res Bytes)) × (u' : Uart) × (session calls u ≡ some (replies, u'))
      × Serves (stream u) calls replies (stream u')
unfolding session Performs
session-Serves [] u = ([], u, refl, served)
session-Serves (c ∷ calls) u =
    let ((r, u1), one, kept, answer) = performs c u in
    let (replies, u2, more, rest) = session-Serves calls u1 in
    (
      r ∷ replies,
      u2,
      ap (λ o. o >>=? λ p. session calls p.1 >>=? λ q. some (p.0 ∷ q.0, q.1)) one
          ∙ ap (λ o. o >>=? λ q. some (r ∷ q.0, q.1)) more,
      subst (λ s. Serves s (c ∷ calls) (r ∷ replies) (stream u2)) kept (serves answer rest),
    )
