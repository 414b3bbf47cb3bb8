-- ===== src/Client/Tunneling.antt =====
-- `tunnel_authorized` and `debug_tunnel` of client.rs. One `CONNECT` round trip, the direct
-- connection, the clock in milliseconds and the sleep are parameters.
use lager_rs.Prelude.{
  ℕ, zero, suc, ◌+◌, ◌*◌, ◌≤◌, ◌<◌, ◌≡◌, Bool, true, false, not, ◌&&◌, ◌||◌, Option, none, some,
  Text, ok, err, is_some, leb, leb→le, ◌==◌, Bool-cases, inl, inr, if◌then◌else◌, arith,
}
use lager_rs.Error.{Res}
use lager_rs.Auth.Denial.{denial_error}
use lager_rs.Auth.Gateway.{has_static_token}
use lager_rs.Tunnel.Refusal.{
  Refusal, denied, nothing_listening, unsupported, not_debug_port, refusal_error,
}
use lager_rs.Client.{Client, Services, current_token, resolve, learn}

pub data Attempt (S : Type 0) : Type 0 where
  opened : S → Attempt S
  refused : Refusal → Attempt S

abbrev pub nothing_listening_wait : ℕ
nothing_listening_wait = 5000

abbrev pub nothing_listening_retry : ℕ
nothing_listening_retry = 250

module _ {D N S : Type 0} (s : Services D)
    (tunnel_once : Option Text → Client D N → Res (Attempt S) × Client D N) where
  abbrev denied_error : ℕ → Text → Bool → Client D N → Res (Attempt S) × Client D N
  denied_error status url sent c = (err (denial_error status c.auth.box_host url sent), c)

  abbrev judge_retry : Res (Attempt S) × Client D N → Res (Attempt S) × Client D N
  judge_retry (ok (refused (denied status url)), c) = denied_error status url true c
  judge_retry (r, c) = (r, c)

  abbrev with_fresh : ℕ → Text → Bool → Option Text × Client D N → Res (Attempt S) × Client D N
  with_fresh status url sent (none, c) = denied_error status url sent c
  with_fresh status url sent (some fresh, c) = judge_retry (tunnel_once (some fresh) c)

  abbrev after_denial : ℕ → Text → Option Text → Client D N → Res (Attempt S) × Client D N
  after_denial status url token c =
      if status == 401 && not (has_static_token c.auth)
      then with_fresh status url (is_some token) (resolve s url token c)
      else denied_error status url (is_some token) c

  abbrev judge_attempt : Option Text → Res (Attempt S) × Client D N → Res (Attempt S) × Client D N
  judge_attempt token (ok (refused (denied status url)), c) =
      after_denial status url token (learn s url c)
  judge_attempt token (r, c) = (r, c)

  abbrev attempt_with : Option Text × Client D N → Res (Attempt S) × Client D N
  attempt_with (token, c) = judge_attempt token (tunnel_once token c)

  unfoldable pub tunnel_authorized : Client D N → Res (Attempt S) × Client D N
  unfolding current_token resolve learn has_static_token denial_error
  tunnel_authorized c = attempt_with (current_token s c)

  module _ (now : N → ℕ) (sleep : ℕ → N → N) where
    abbrev slept : Client D N → Client D N
    slept c = record c { network = sleep nothing_listening_retry c.network }

    abbrev waits : ℕ → Res (Attempt S) × Client D N → Bool
    waits deadline (ok (refused (nothing_listening body)), c) =
        leb (now c.network + nothing_listening_retry) deadline
    waits deadline _ = false

    -- The loop, which has not ended when the fuel runs out.
    unfoldable pub tunnel_loop : ℕ → ℕ → Client D N → Option (Res (Attempt S) × Client D N)
    unfolding tunnel_authorized
    tunnel_loop zero deadline c = none
    tunnel_loop (suc fuel) deadline c =
        let p = tunnel_authorized c in
        let again = tunnel_loop fuel deadline (slept p.1) in
        if waits deadline p then again else some p

    -- The clock does not go back during an attempt, and a sleep lasts at least as long as asked.
    pub record IsSteady : Type 0 where
      pub attempts : (c : Client D N) → now c.network ≤ now (tunnel_authorized c).1.network
      pub sleeps : (n : ℕ) (w : N) → now w + n ≤ now (sleep n w)

    waits-time :
        (deadline : ℕ) (p : Res (Attempt S) × Client D N)
        → waits deadline p ≡ true
        → now p.1.network + nothing_listening_retry ≤ deadline
    waits-time deadline (ok (refused (nothing_listening body)), c) h = leb→le _ _ h
    waits-time deadline (ok (refused (denied status url)), c) h = cc
    waits-time deadline (ok (refused (not_debug_port body)), c) h = cc
    waits-time deadline (ok (refused (unsupported status)), c) h = cc
    waits-time deadline (ok (opened stream), c) h = cc
    waits-time deadline (err e, c) h = cc

    tunnel_loop-ends :
        IsSteady
        → (k deadline : ℕ) (c : Client D N) → deadline < now c.network + nothing_listening_retry * k
        → (p : Res (Attempt S) × Client D N) × (tunnel_loop (suc k) deadline c ≡ some p)
    unfolding tunnel_loop
    tunnel_loop-ends steady zero deadline c early =
        elim (Bool-cases (waits deadline (tunnel_authorized c))) [
          | inl wait ↦
              let late = waits-time deadline (tunnel_authorized c) wait in
              let forward = steady.attempts c in absurd (omega arith)
          | inr over ↦ (tunnel_authorized c, rw over)
        ]
    tunnel_loop-ends steady (suc k) deadline c early =
        elim (Bool-cases (waits deadline (tunnel_authorized c))) [
          | inl wait ↦
              let p = tunnel_authorized c in
              let forward = steady.attempts c in
              let rested = steady.sleeps nothing_listening_retry p.1.network in
              let (result, ends) = tunnel_loop-ends steady k deadline (slept p.1) (omega arith) in
              (result, rw wait ends)
          | inr over ↦ (tunnel_authorized c, rw over)
        ]

    module _ (connect_tcp : Text → ℕ → Client D N → Res S × Client D N) (port : ℕ) where
      abbrev direct_or : Refusal → Res S × Client D N → Res S × Client D N
      direct_or refusal (ok stream, c) = (ok stream, c)
      direct_or refusal (err e, c) =
          if has_static_token c.auth || is_some c.auth.auth_url
          then (err (refusal_error refusal c.auth.box_host port), c)
          else (err e, c)

      unfoldable pub debug_port_direct : Refusal → Client D N → Res S × Client D N
      unfolding has_static_token refusal_error
      debug_port_direct refusal c = direct_or refusal (connect_tcp c.auth.box_host port c)

      abbrev finish : Res (Attempt S) × Client D N → Res S × Client D N
      finish (err e, c) = (err e, c)
      finish (ok (opened stream), c) = (ok stream, c)
      finish (ok (refused (unsupported status)), c) = debug_port_direct (unsupported status) c
      finish (ok (refused refusal), c) = (err (refusal_error refusal c.auth.box_host port), c)

      abbrev finish_if : Option (Res (Attempt S) × Client D N) → Option (Res S × Client D N)
      finish_if none = none
      finish_if (some p) = some (finish p)

      -- With retries that are 250 ms apart, 22 turns outlast the wait of 5 s.
      unfoldable pub debug_tunnel : Client D N → Option (Res S × Client D N)
      unfolding tunnel_loop debug_port_direct refusal_error
      debug_tunnel c = finish_if (tunnel_loop 22 (now c.network + nothing_listening_wait) c)

      -- Where the clock does not go back and a sleep lasts as long as asked, the wait for a debug
      -- server comes to an end, with a result.
      pub debug_tunnel-ends :
          IsSteady → (c : Client D N) → (p : Res S × Client D N) × (debug_tunnel c ≡ some p)
      unfolding debug_tunnel
      debug_tunnel-ends steady c =
          let (p, ends) =
            tunnel_loop-ends steady 21 (now c.network + nothing_listening_wait) c (omega arith) in
          (finish p, rw ends)
